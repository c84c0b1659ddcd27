-- ===== src/Domain/Score/Count.antt =====
-- crates/beacon-core/src/lib.rs: how many classes a score can count.
use paschal.Base.{
  suc, ◌+◌, ◌≤◌, String, List, [], ◌∷◌, length, any, arith, Bool-cases, inl, inr, str_eq,
}
use paschal.Base.Float.{Float32}
use paschal.Domain.SignalSource.{independence_class}
use paschal.Domain.Score.{ScoredObservation, score, score_loop, add_class, insert_class}

insert_class-length :
    (c : String) (set : List String) → length (insert_class c set) ≤ suc (length set)
unfolding insert_class
insert_class-length c set = elim (Bool-cases (any (str_eq c) set)) [
  | inl seen ↦ rw seen (omega arith)
  | inr new ↦ rw new (omega arith)
]

module _ ⦃f : Float32⦄ where
  add_class-length :
      (obs : ScoredObservation) (set : List String) → length (add_class obs set) ≤ suc (length set)
  unfolding add_class
  add_class-length obs set = elim (Bool-cases (f.leb (f.hundredths 20) obs.contribution)) [
    | inl strong ↦ rw strong (insert_class-length (independence_class obs.source) set)
    | inr weak ↦ rw weak (omega arith)
  ]

  score_loop-length :
      (sum_sq : f.F) (set : List String) (obs : List ScoredObservation)
      → length (score_loop sum_sq set obs).1 ≤ length set + length obs
  unfolding score_loop
  score_loop-length sum_sq set [] = omega arith
  score_loop-length sum_sq set (o ∷ obs) =
      let v = f.mul o.weight o.contribution in
      let rest = score_loop-length (f.add sum_sq (f.mul v v)) (add_class o set) obs in
      omega (arith, rest, add_class-length o set)

  -- A score counts at most one class for each observation.
  pub independent_classes_bound :
      (obs : List ScoredObservation) → (score obs).independent_classes ≤ length obs
  unfolding score
  independent_classes_bound obs = omega (arith, score_loop-length (f.hundredths 0) [] obs)
