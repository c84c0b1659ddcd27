-- ===== src/Scheduler/Evaluate.antt =====
-- crates/beacon-api/src/scheduler.rs: `evaluate`, the aggregator's decision on one vault.
use paschal.Base.{
  ℕ, ◌≡◌, ◌⊎◌, Bool, true, false, ◌&&◌, List, [], ◌∷◌, arith, any, leb, not, err, if◌then◌else◌,
}
use paschal.Base.Float.{Float32}
use paschal.Domain.Errors.{invalid_transition}
use paschal.Domain.VaultState.{
  VaultState, active, suspicious, alert, cooling_off, as_db_str, can_transition, transition,
}
use paschal.Domain.Score.{TriggerScore, should_alert}

module _ ⦃f : Float32⦄ where
  open f use {F, hundredths, mul, ltb}

  -- `soft_threshold`.
  abbrev pub is_soft : TriggerScore → F → Bool
  is_soft s threshold = f.leb (mul threshold (hundredths 50)) s.score && leb 1 s.independent_classes

  -- The `match` on the current state.
  unfoldable pub decide : VaultState → Bool → Bool → Bool → VaultState
  decide active crossed soft calm = if crossed then alert else if soft then suspicious else active
  decide suspicious crossed soft calm =
      if crossed then alert else if calm then active else suspicious
  decide alert crossed soft calm = if not soft then suspicious else cooling_off
  decide other crossed soft calm = other

  unfoldable pub evaluate : VaultState → TriggerScore → F → ℕ → VaultState
  unfolding decide
  evaluate current s threshold min_classes =
      decide current (should_alert s threshold min_classes) (is_soft s threshold)
        (ltb s.score (hundredths 10))

  -- A decision leaves the vault where it is, follows the transition table of the domain, or takes
  -- an ACTIVE vault straight to ALERT.
  pub evaluate_edges :
      (current : VaultState) (s : TriggerScore) (threshold : F) (min_classes : ℕ)
      → let next = evaluate current s threshold min_classes in
        (next ≡ current)
        ⊎ (can_transition current next ≡ true)
        ⊎ ((current ≡ active) × (next ≡ alert))
  unfolding evaluate can_transition
  evaluate_edges current s threshold min_classes = ground arith

  -- Whenever a score crosses the policy, the decision on an ACTIVE vault is ALERT, which
  -- `transition` refuses as a step from ACTIVE.
  pub active_skips_suspicious :
      (s : TriggerScore) (threshold : F) (min_classes : ℕ)
      → should_alert s threshold min_classes ≡ true
      → (evaluate active s threshold min_classes ≡ alert)
        × (transition active alert ≡ err (invalid_transition (as_db_str active) (as_db_str alert)))
  unfolding evaluate transition can_transition
  active_skips_suspicious s threshold min_classes h = ground arith

  -- The decisions of successive ticks on one vault, one score for each tick.
  unfoldable pub ticks : VaultState → F → ℕ → List TriggerScore → VaultState
  ticks current threshold min_classes [] = current
  ticks current threshold min_classes (s ∷ rest) =
      ticks (evaluate current s threshold min_classes) threshold min_classes rest

  -- A vault in ALERT or COOLING_OFF has crossed the policy.
  abbrev is_raised : VaultState → Bool
  is_raised alert = true
  is_raised cooling_off = true
  is_raised _ = false

  evaluate-is_raised :
      (current : VaultState) (s : TriggerScore) (threshold : F) (min_classes : ℕ)
      → is_raised current ≡ false
      → is_raised (evaluate current s threshold min_classes) ≡ true
      → should_alert s threshold min_classes ≡ true
  unfolding evaluate
  evaluate-is_raised current s threshold min_classes h r = ground arith

  ticks-is_raised :
      (current : VaultState) (threshold : F) (min_classes : ℕ) (scores : List TriggerScore)
      → is_raised current ≡ false
      → is_raised (ticks current threshold min_classes scores) ≡ true
      → any (λ s. should_alert s threshold min_classes) scores ≡ true
  unfolding ticks
  ticks-is_raised current threshold min_classes [] h r = ground arith
  ticks-is_raised current threshold min_classes (s ∷ rest) h r = ground (
    arith,
    evaluate-is_raised current s threshold min_classes h,
    ticks-is_raised (evaluate current s threshold min_classes) threshold min_classes rest,
  )

  -- A vault that the ticks lead from ACTIVE to COOLING_OFF has had a score that crossed the policy.
  pub cooling_off_needs_alert :
      (threshold : F) (min_classes : ℕ) (scores : List TriggerScore)
      → ticks active threshold min_classes scores ≡ cooling_off
      → any (λ s. should_alert s threshold min_classes) scores ≡ true
  cooling_off_needs_alert threshold min_classes scores h =
      ground (arith, ticks-is_raised active threshold min_classes scores)
