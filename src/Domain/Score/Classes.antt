-- ===== src/Domain/Score/Classes.antt =====
-- How many independence classes a score counts.
use paschal.Base.{
  ℕ, ◌+◌, ◌≤◌, String, Bool, true, false, ◌||◌, ◌&&◌, List, [], ◌∷◌, ◌≡◌, refl, ◌⊎◌, inl, arith,
  length, any, All, str_eq, eq_iff,
}
use paschal.Base.Float.{Float32}
use paschal.Domain.SignalSource.{SignalSource, independence_class}
use paschal.Domain.Score.{
  ScoredObservation, insert_class, add_class, score_loop, score, should_alert,
}

abbrev pub all_classes : List String
all_classes =
    "personal_attestation" ∷ "financial" ∷ "social_google" ∷ "social_microsoft" ∷ "social_apple"
    ∷ "social_meta" ∷ "human_attestation" ∷ "official_record" ∷ "infrastructure" ∷ []

abbrev pub bit : Bool → ℕ
bit true = 1
bit false = 0

-- How many of the texts pass the test.
abbrev pub count_by : (String → Bool) → List String → ℕ
count_by p [] = 0
count_by p (c ∷ cs) = bit (p c) + count_by p cs

contains : List String → String → Bool
contains set c = any (λ x. str_eq c x) set

Tallied : List String → Type 0
Tallied set = length set ≡ count_by (contains set) all_classes

module _ ⦃f : Float32⦄ where
  open f use {F, hundredths}

  -- Some observation of at least 0.2 is of this class.
  pub counted : List ScoredObservation → String → Bool
  counted [] c = false
  counted (obs ∷ rest) c =
      (f.leb (hundredths 20) obs.contribution && str_eq c (independence_class obs.source))
      || counted rest c

  -- Every observation is of class `c`.
  abbrev pub IsOfClass : String → List ScoredObservation → Type 0
  IsOfClass c = All λ o. independence_class o.source ≡ c

  -- A set that has at most the class `c`.
  abbrev IsAtMost : String → List String → Type 0
  IsAtMost c set = (set ≡ []) ⊎ (set ≡ c ∷ [])

  add_class-IsAtMost :
      (c : String) (o : ScoredObservation) (set : List String)
      → independence_class o.source ≡ c
      → IsAtMost c set
      → IsAtMost c (add_class o set)
  unfolding add_class insert_class
  add_class-IsAtMost c o set e h = ground (arith, eq_iff (independence_class o.source) c)

  score_loop-IsAtMost :
      (obs : List ScoredObservation) (c : String) (sum : F) (set : List String)
      → IsOfClass c obs
      → IsAtMost c set
      → IsAtMost c (score_loop sum set obs).1
  unfolding score_loop
  score_loop-IsAtMost [] c sum set e h = h
  score_loop-IsAtMost (o ∷ rest) c sum set e h =
      score_loop-IsAtMost rest c _ (add_class o set) e.1 (add_class-IsAtMost c o set e.0 h)

  -- Observations of one independence class, however many and however strong, never cross a policy
  -- that asks for two or more independent signals.
  one_class_never_alerts :
      (c : String) (observations : List ScoredObservation) (threshold : F) (min_signals : ℕ)
      → IsOfClass c observations
      → 2 ≤ min_signals
      → should_alert (score observations) threshold min_signals ≡ false
  unfolding score should_alert
  one_class_never_alerts c observations threshold min_signals e two =
      ground (arith, score_loop-IsAtMost observations c (hundredths 0) [] e (inl refl))
