-- ===== src/Domain/Score.antt =====
-- crates/beacon-core/src/lib.rs: trigger evaluation. The `HashSet` of independence classes is a
-- list without repetitions.
pub mod Classes
pub mod Count
use paschal.Base.{
  ℕ, String, Bool, ◌&&◌, List, [], ◌∷◌, ℤ, pos, max_one, ltbℤ, length, any, leb, str_eq,
  if◌then◌else◌,
}
use paschal.Base.Float.{Float32, clamp_unit}
use paschal.Domain.SignalSource.{SignalSource, independence_class}

-- `classes.insert(c)`.
pub insert_class : String → List String → List String
insert_class c set = if any (str_eq c) set then set else c ∷ set

module _ ⦃f : Float32⦄ where
  open f use {F, hundredths, add, mul, sqrt}

  pub record ScoredObservation : Type 0 where
    pub source : SignalSource
    pub contribution : F
    pub weight : F

  pub record TriggerScore : Type 0 where
    pub score : F
    pub contributing : List ScoredObservation
    pub independent_classes : ℕ

  unfoldable pub should_alert : TriggerScore → F → ℕ → Bool
  should_alert s threshold min_independent_signals =
      f.leb threshold s.score && leb min_independent_signals s.independent_classes

  -- One round of the loop on its variables `sum_sq` and `classes_above_threshold`.
  pub add_class : ScoredObservation → List String → List String
  unfolding insert_class
  add_class obs set =
      if f.leb (hundredths 20) obs.contribution
      then insert_class (independence_class obs.source) set
      else set

  pub score_loop : F → List String → List ScoredObservation → F × List String
  score_loop sum_sq set [] = (sum_sq, set)
  score_loop sum_sq set (obs ∷ rest) =
      let v = mul obs.weight obs.contribution in
      score_loop (add sum_sq (mul v v)) (add_class obs set) rest

  unfoldable pub score : List ScoredObservation → TriggerScore
  score observations =
      let (sum_sq, set) = score_loop (hundredths 0) [] observations in
      record {
        score = clamp_unit (sqrt sum_sq);
        contributing = observations;
        independent_classes = length set;
      }

  -- `c(t) = c_0 · exp(-(t - t_obs) / τ)`, and nothing outside the window.
  unfoldable pub time_decayed_contribution : F → ℤ → ℤ → ℤ → F
  time_decayed_contribution raw seconds_since_observation half_life_seconds window_seconds =
      if ltbℤ window_seconds seconds_since_observation
      then hundredths 0
      else clamp_unit (
          mul raw (
            f.exp (
              f.neg (
                f.div (f.of_int seconds_since_observation)
                  (f.of_int (pos (max_one half_life_seconds)))))))
