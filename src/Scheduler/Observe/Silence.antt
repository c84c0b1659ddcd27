-- ===== src/Scheduler/Observe/Silence.antt =====
-- crates/beacon-api/src/scheduler.rs: when the silence of a principal can lead to a release.
use paschal.Base.{
  ℕ, ◌≤◌, ◌≡◌, ◌≢◌, refl, false, List, [], ◌∷◌, ◌++◌, Option, none, some, ℤ, length, any, arith,
  map, All, length-++, Bool-cases, inl, inr,
}
use paschal.Base.Float.{Float32}
use paschal.Domain.SignalSource.{SignalSource, heartbeat, cdr, buddy_attestation}
use paschal.Domain.VaultState.{active, cooling_off}
use paschal.Domain.Score.{score, TriggerScore, should_alert}
use paschal.Domain.Score.Count.{independent_classes_bound}
use paschal.Db.Presence.{list_signal_subscriptions}
use paschal.Db.Tables.{Store, Vault, SignalSubscription}
use paschal.Scheduler.Evaluate.{ticks, cooling_off_needs_alert}
use paschal.Scheduler.Observe.{
  observations, observed, observe_heartbeat, observe_buddy, observe_bank, weight_for, staleness,
}

module _ ⦃f : Float32⦄ where
  observed-length : (source : SignalSource) (c w : f.F) → length (observed source c w) ≤ 1
  observed-length source c w = elim (Bool-cases (f.ltb (f.hundredths 0) c)) [
    | inl e ↦ rw e (omega arith)
    | inr e ↦ rw e (omega arith)
  ]

  observe_heartbeat-length :
      (now : ℕ) (gap : ℤ) (v : Vault) (w : Option f.F) → length (observe_heartbeat now gap v w) ≤ 1
  unfolding observe_heartbeat
  observe_heartbeat-length now gap v none = omega arith
  observe_heartbeat-length now gap v (some w) = observed-length heartbeat (staleness now gap v) w

  observe_buddy-length :
      (now : ℕ) (v : Vault) (s : Store) (w : Option f.F) → length (observe_buddy now v s w) ≤ 1
  unfolding observe_buddy
  observe_buddy-length now v s none = omega arith
  observe_buddy-length now v s (some w) = observed-length _ _ w

  -- Without a subscription to the bank's signal there are at most two observations.
  at_most_two :
      (now : ℕ) (gap : ℤ) (v : Vault) (subs : List SignalSubscription) (s : Store)
      → weight_for subs cdr ≡ none
      → length (observations now gap v subs s) ≤ 2
  unfolding observations observe_bank
  at_most_two now gap v subs s no_bank = rw no_bank (
      rw
        (
          length-++ (observe_heartbeat now gap v (weight_for subs heartbeat))
              (observe_buddy now v s (weight_for subs buddy_attestation) ++ []),
          length-++ (observe_buddy now v s (weight_for subs buddy_attestation)) [],
        )
        (omega (
          arith,
          observe_heartbeat-length now gap v (weight_for subs heartbeat),
          observe_buddy-length now v s (weight_for subs buddy_attestation),
        )))

  -- A round of the aggregator on a vault: the time, the vault's row, the database.
  abbrev pub Reading : Type 0
  Reading = ℕ × Vault × Store

  abbrev pub subs_of : Reading → List SignalSubscription
  subs_of (now, v, s) = list_signal_subscriptions v.id s

  abbrev pub score_of : ℤ → Reading → TriggerScore
  score_of gap (now, v, s) = score (observations now gap v (subs_of (now, v, s)) s)

  without_bank_no_alert :
      (gap : ℤ) (threshold : f.F) (min_classes : ℕ) (r : Reading)
      → 3 ≤ min_classes
      → weight_for (subs_of r) cdr ≡ none
      → should_alert (score_of gap r) threshold min_classes ≡ false
  unfolding should_alert
  without_bank_no_alert gap threshold min_classes (now, v, s) h no_bank =
      let few = at_most_two now gap v (subs_of (now, v, s)) s no_bank in
      let counted = independent_classes_bound (observations now gap v (subs_of (now, v, s)) s) in
      ground (arith, h, few, counted)

  none_alerts :
      (gap : ℤ) (threshold : f.F) (min_classes : ℕ) (readings : List Reading)
      → 3 ≤ min_classes
      → All (λ r. weight_for (subs_of r) cdr ≡ none) readings
      → any (λ sc. should_alert sc threshold min_classes) (map (score_of gap) readings) ≡ false
  none_alerts gap threshold min_classes [] h no_bank = refl
  none_alerts gap threshold min_classes (r ∷ readings) h (first_none, no_bank) =
      rw (without_bank_no_alert gap threshold min_classes r h first_none)
        (none_alerts gap threshold min_classes readings h no_bank)

  -- With the default of three independent classes, however long a principal is silent and whatever
  -- the buddies say, a vault that has no enabled subscription to the bank's signal is never led from
  -- ACTIVE to COOLING_OFF.
  pub without_bank_never_released :
      (gap : ℤ) (threshold : f.F) (min_classes : ℕ) (readings : List Reading)
      → 3 ≤ min_classes
      → All (λ r. weight_for (subs_of r) cdr ≡ none) readings
      → ticks active threshold min_classes (map (score_of gap) readings) ≢ cooling_off
  without_bank_never_released gap threshold min_classes readings h no_bank reached =
      let crossed =
        cooling_off_needs_alert threshold min_classes (map (score_of gap) readings) reached in
      let never = none_alerts gap threshold min_classes readings h no_bank in
      absurd (ground (arith, crossed, never))
