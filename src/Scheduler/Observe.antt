-- ===== src/Scheduler/Observe.antt =====
-- crates/beacon-api/src/scheduler.rs: the observations that `aggregator_tick` builds for a vault,
-- and its work on one vault.
pub mod Silence
use paschal.Base.{
  ℕ, ◌-◌, ◌+◌, ◌*◌, Bool, true, false, not, ◌&&◌, List, [], ◌∷◌, ◌++◌, Option, none, some, ℤ, pos,
  negsuc, seconds_between, str_eq, any, if◌then◌else◌,
}
use mathlib.Core.Option
use paschal.Base.Float.{Float32, clamp_unit}
use paschal.Domain.SignalSource
use paschal.Domain.SignalSource.{SignalSource, heartbeat, buddy_attestation, cdr}
use paschal.Domain.Score.{ScoredObservation, score}
use paschal.Db.Sql.{first, select}
use paschal.Db.Tables.{Store, Vault, Signal, SignalSubscription}
use paschal.Db.Presence.{
  list_signal_subscriptions, list_recent_signals, list_bank_dormancy_subs_with_recent_ping,
}
use paschal.App.World.{World, Platform}
use paschal.App.Monad.{Api, ◌>>=◌, continue, pure, ask}
use paschal.Scheduler.Evaluate.{evaluate}
use paschal.Scheduler.Workers.{apply_decision}

-- The sources are compared by their names in the database.
abbrev pub is_source : SignalSource → SignalSource → Bool
is_source a b = str_eq (SignalSource.as_db_str a) (SignalSource.as_db_str b)

-- `now - max_gap_seconds * 5`.
abbrev pub five_gaps_before : ℕ → ℤ → ℕ
five_gaps_before now (pos n) = now - n * 5
five_gaps_before now (negsuc n) = now + (n + 1) * 5

module _ ⦃f : Float32⦄ where
  open f use {F, hundredths, of_int, div, max, ltb, of_bits}

  -- The values of the configuration that the tick reads.
  pub record Policy : Type 0 where
    pub heartbeat_max_gap_seconds : ℤ
    pub trigger_threshold : F
    pub min_independent_signals : ℕ

  -- The weight of the first subscription that is enabled.
  unfoldable pub weight_for : List SignalSubscription → SignalSource → Option F
  weight_for subs source =
      Option.map (λ x. of_bits x.weight) (first (λ x. is_source x.source source && x.enabled) subs)

  -- How stale the last attestation is, from 0 to 1.
  unfoldable pub staleness : ℕ → ℤ → Vault → F
  staleness now max_gap vault =
      clamp_unit (div (of_int (seconds_between now vault.last_attestation_at)) (of_int max_gap))

  -- An observation, where its contribution is positive.
  abbrev pub observed : SignalSource → F → F → List ScoredObservation
  observed source contribution weight =
      if ltb (hundredths 0) contribution
      then record { source = source; contribution = contribution; weight = weight } ∷ []
      else []

  unfoldable pub observe_heartbeat : ℕ → ℤ → Vault → Option F → List ScoredObservation
  unfolding staleness
  observe_heartbeat now max_gap vault none = []
  observe_heartbeat now max_gap vault (some w) = observed heartbeat (staleness now max_gap vault) w

  -- `.fold(0.0, f32::max)`.
  unfoldable pub strongest : F → List Signal → F
  strongest best [] = best
  strongest best (x ∷ signals) = strongest (max best (of_bits x.contribution)) signals

  unfoldable pub observe_buddy : ℕ → Vault → Store → Option F → List ScoredObservation
  unfolding strongest
  observe_buddy now vault s none = []
  observe_buddy now vault s (some w) =
      let signals = list_recent_signals vault.id (now - 30 * 86400) s in
      observed buddy_attestation
        (strongest (hundredths 0) (select (λ x. is_source x.source buddy_attestation) signals)) w

  -- A ping or a signal of the bank within five gaps counts as a sign of life.
  abbrev pub bank_is_silent : ℕ → ℤ → Vault → Store → Bool
  bank_is_silent now max_gap vault s =
      let since = five_gaps_before now max_gap in
      not (any (λ _. true) (list_bank_dormancy_subs_with_recent_ping vault.principal_id since s))
      && not (any (λ x. is_source x.source cdr) (list_recent_signals vault.id since s))

  unfoldable pub observe_bank : ℕ → ℤ → Vault → Store → Option F → List ScoredObservation
  unfolding staleness
  observe_bank now max_gap vault s none = []
  observe_bank now max_gap vault s (some w) =
      if bank_is_silent now max_gap vault s
      then observed cdr (staleness now max_gap vault) w
      else []

  unfoldable pub observations :
      ℕ → ℤ → Vault → List SignalSubscription → Store → List ScoredObservation
  unfolding observe_heartbeat observe_buddy observe_bank weight_for
  observations now max_gap vault subs s =
      observe_heartbeat now max_gap vault (weight_for subs heartbeat)
      ++ (observe_buddy now vault s (weight_for subs buddy_attestation)
          ++ observe_bank now max_gap vault s (weight_for subs cdr))

  -- The round of the loop for one vault, which is skipped if the vault has no subscriptions.
  unfoldable pub watch_vault : ⦃p : Platform⦄ → ℕ → Policy → Vault → Api (Unit {0})
  unfolding observations
  watch_vault now policy vault = do
    subs ← ask (list_signal_subscriptions vault.id)
    obs ← ask (observations now policy.heartbeat_max_gap_seconds vault subs)
    let next =
          evaluate vault.state (score obs) policy.trigger_threshold
            policy.min_independent_signals in
        if any (λ _. true) subs then apply_decision now vault next else pure tt
