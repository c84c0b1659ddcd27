-- ===== src/Scheduler/Workers.antt =====
-- crates/beacon-api/src/scheduler.rs: what the aggregator does with a decision, the schedule of
-- the letters, the event letters and the changes of address.
pub mod Schedule
pub mod Aggregator
use paschal.Base.{
  ℕ, ◌+◌, String, Bool, true, false, ◌&&◌, List, [], ◌∷◌, Option, none, some, Result, ok, err, ℤ,
  shift, leb, not, if◌then◌else◌,
}
use paschal.Domain.VaultState
use paschal.Domain.VaultState.{VaultState, active, cooling_off}
use paschal.Domain.SubscriptionState.{allows_release}
use paschal.Db.Tables.{
  Store, Vault, Letter, Attachment, Principal, Subscription, RecipientChange, signal_trigger,
  scheduled, DbError,
}
use paschal.Db.Vaults.{fetch_vault, list_vaults, set_vault_state, claim_vault_cooling_off}
use paschal.Db.Letters.{
  fetch_letter, list_letters, list_attachments, list_scheduled_letters_due, clear_schedule,
  mark_letter_event_released, purge_attachment, purge_letter_ciphertext,
}
use paschal.Db.Changes.{
  fetch_pending_recipient_change, apply_recipient_change, list_due_recipient_changes,
}
use paschal.Db.Releases.{
  create_release_event, create_release_event_with_deadline, mark_release_released,
  append_transparency_entry,
}
use paschal.Db.Subscriptions.{
  fetch_subscription, list_canceled_past_retention, expire_subscription, delete_subscription,
}
use paschal.Db.Accounts.{fetch_principal, list_due_account_deletions, anonymise_principal}
use paschal.Db.Deputies.{principal_in_duress}
use paschal.App.World.{World, Platform, Metrics, inc, conflict, cooling_off_started}
use paschal.App.Monad.{
  Api, ◌>>=◌, ◌>>◌, continue, pure, ensure, ask, ask_result, exec, call, call_result, ignore_errors,
  notify, count, for_each, draw,
}
use paschal.Scheduler.Release.{begin_release, deliver_letter}

-- "TRIGGER_" and the name of the new state.
abbrev trigger_kind : VaultState → String
trigger_kind VaultState.active = "TRIGGER_ACTIVE"
trigger_kind VaultState.suspicious = "TRIGGER_SUSPICIOUS"
trigger_kind VaultState.alert = "TRIGGER_ALERT"
trigger_kind VaultState.cooling_off = "TRIGGER_COOLING_OFF"
trigger_kind VaultState.releasing = "TRIGGER_RELEASING"
trigger_kind VaultState.released = "TRIGGER_RELEASED"
trigger_kind VaultState.archived = "TRIGGER_ARCHIVED"

unfoldable pub record_decision : Vault → VaultState → Api (Unit {0})
record_decision vault new_state = do
  updated ← call_result (set_vault_state vault.id new_state none none)
  exec
      (append_transparency_entry (trigger_kind new_state) (some vault.principal_id) (some vault.id))

-- A change of address whose hold is over goes first.
unfoldable pub apply_due_change : ℕ → Option RecipientChange → Api (Unit {0})
apply_due_change now none = pure tt
apply_due_change now (some change) =
    if not (leb change.effective_at now)
    then pure tt
    else do applied ← call (apply_recipient_change now change.id); pure tt

unfoldable pub apply_change : ℕ → ℕ → Api (Unit {0})
apply_change now change_id = do
  applied ← call (apply_recipient_change now change_id)
  elim applied [
    | none ↦ pure tt
    | some change ↦ exec (append_transparency_entry "RECIPIENT_CHANGE_APPLIED" none none)
  ]

unfoldable pub recipient_change_tick : ℕ → Api (Unit {0})
recipient_change_tick now = do
  due ← ask (list_due_recipient_changes now)
  for_each due (apply_change now)

-- Whether the vault and its subscription let the schedule fire: a row that is missing skips it.
unfoldable pub may_fire : Result DbError Vault → Store → Bool
may_fire (err e) s = false
may_fire (ok vault) s =
    VaultState.eq vault.state active && subscribed (fetch_subscription vault.principal_id s)
  where
    subscribed : Result DbError Subscription → Bool
    subscribed (err e) = false
    subscribed (ok sub) = allows_release sub.state

abbrev releases_completed : Metrics → Metrics
releases_completed m = record m { releases_completed_total = inc m.releases_completed_total }

module _ ⦃p : Platform⦄ where
  -- A worker that has won the claim warns the principal and sets the deadline.
  unfoldable pub open_cooling_off : ℕ → Vault → Api (Unit {0})
  open_cooling_off now vault = do
    exec (append_transparency_entry "TRIGGER_COOLING_OFF" (some vault.principal_id) (some vault.id))
    owner ← ask_result (fetch_principal vault.principal_id)
    notify cooling_off_started owner.primary_email
    new_id ← draw
    release ← call (
        create_release_event_with_deadline new_id now vault.id signal_trigger false
          (shift now vault.cooling_off_seconds))
    pure tt

  unfoldable pub enter_cooling_off : ℕ → Vault → Api (Unit {0})
  enter_cooling_off now vault = do
    duress ← ask (principal_in_duress vault.principal_id)
    if duress then pure tt else do
      won ← call (claim_vault_cooling_off now vault.id vault.state)
      if won then open_cooling_off now vault else pure tt

  -- The end of `aggregator_tick` for one vault, as it was read, and the state that was decided.
  unfoldable pub apply_decision : ℕ → Vault → VaultState → Api (Unit {0})
  apply_decision now vault new_state =
      if VaultState.eq new_state vault.state
      then pure tt
      else if VaultState.eq new_state cooling_off
      then enter_cooling_off now vault
      else record_decision vault new_state

  unfoldable pub trigger_event_release : ℕ → ℕ → ℕ → Api (Unit {0})
  trigger_event_release now vault_id letter_id = do
    change ← ask (fetch_pending_recipient_change letter_id)
    apply_due_change now change
    fired ← call (mark_letter_event_released now letter_id)
    ensure fired conflict
    letter ← ask_result (fetch_letter letter_id)
    new_id ← draw
    release ← call (create_release_event new_id now vault_id scheduled false)
    deliver_letter now release.id letter
    exec (mark_release_released now release.id)
    exec (append_transparency_entry "CO_STEWARD_EVENT_RELEASE" none (some vault_id))
    count releases_completed

  unfoldable pub begin_and_clear : ℕ → ℕ → ℕ → Api (Unit {0})
  begin_and_clear now vault_id letter_id = do
    ignore_errors (begin_release now vault_id scheduled false)
    exec (clear_schedule letter_id)

  unfoldable pub fire_scheduled : ℕ → ℕ × ℕ → Api (Unit {0})
  fire_scheduled now (vault_id, letter_id) = do
    fires ← ask (λ s. may_fire (fetch_vault vault_id s) s)
    if fires then begin_and_clear now vault_id letter_id else pure tt

  unfoldable pub scheduled_release_tick : ℕ → Api (Unit {0})
  scheduled_release_tick now = do
    due ← ask (list_scheduled_letters_due now)
    for_each due (fire_scheduled now)
