-- ===== src/Scheduler/Release.antt =====
-- crates/beacon-api/src/scheduler.rs: the release pipeline (begin, elapse, perform, deliver) and its
-- poll loop. `now` is the clock of the server and of the database.
pub mod Deliver
pub mod Perform
pub mod Elapse
pub mod Frame
pub mod Poll
pub mod Begin
use paschal.Base.{
  ℕ, ◌+◌, String, Bool, true, false, ◌&&◌, List, [], ◌∷◌, Option, none, some, ℤ, max_one, leb, map,
  if◌then◌else◌,
}
use paschal.Domain.VaultState
use paschal.Domain.VaultState.{active, released}
use paschal.Domain.SubscriptionState
use paschal.Db.Tables.{Store, Vault, Letter, Attachment, ReleaseEvent, ReleaseReason, scheduled}
use paschal.Db.Vaults.{
  fetch_vault, set_vault_state, claim_vault_for_release, claim_vault_cooling_off,
}
use paschal.Db.Letters.{
  list_letters_for_signal_release, list_attachments, list_scheduled_letters_due, clear_schedule,
  fetch_letter, mark_letter_event_released,
}
use paschal.Db.Changes.{
  fetch_pending_recipient_change, apply_recipient_change, list_due_recipient_changes,
}
use paschal.Db.Releases.{
  create_release_event, create_release_event_with_deadline, issue_release_claim,
  issue_attachment_claim, mark_release_released, list_due_releases, append_transparency_entry,
}
use paschal.Db.Subscriptions.{fetch_subscription}
use paschal.App.World.{World, Platform, Metrics, Timer, inc, conflict, release_notification}
use paschal.App.Monad.{
  Api, ◌>>=◌, ◌>>◌, continue, pure, fail, ensure, ask, ask_result, exec, call, call_result,
  ignore_errors, notify, count, spawn, for_each, draw,
}

module _ ⦃p : Platform⦄ where
  -- One claim for each attachment of the letter.
  unfoldable pub deliver_attachment : ℕ → ℕ → String → Attachment → Api (Unit {0})
  deliver_attachment now release_event_id recipient_email attachment = do
    att_token ← draw
    exec (
        issue_attachment_claim now release_event_id attachment.id recipient_email
          (p.hash_token att_token) 30)

  unfoldable pub deliver_letter : ℕ → ℕ → Letter → Api (Unit {0})
  deliver_letter now release_event_id letter = do
    token ← draw
    exec (
        issue_release_claim now release_event_id letter.id letter.recipient_email
          (p.hash_token token) 30)
    attachments ← ask (list_attachments letter.id)
    for_each attachments (deliver_attachment now release_event_id letter.recipient_email)
    notify release_notification letter.recipient_email

  abbrev releases_completed : Metrics → Metrics
  releases_completed m = record m { releases_completed_total = inc m.releases_completed_total }

  abbrev drills_completed : Metrics → Metrics
  drills_completed m = record m { drills_completed_total = inc m.drills_completed_total }

  -- A drill gives the vault back.
  unfoldable pub finish_drill : ℕ → Bool → Api (Unit {0})
  finish_drill vault_id false = pure tt
  finish_drill vault_id true = do
    vault ← call_result (set_vault_state vault_id active none none)
    count drills_completed

  -- What follows the deliveries.
  unfoldable pub finish_release : ℕ → ℕ → ℕ → Bool → Api (Unit {0})
  finish_release now vault_id release_event_id is_drill = do
    vault ← call_result (set_vault_state vault_id released none (some now))
    exec (mark_release_released now release_event_id)
    exec (
        append_transparency_entry (if is_drill then "DRILL_COMPLETED" else "RELEASED") none
          (some vault_id))
    count releases_completed
    finish_drill vault_id is_drill

  unfoldable pub perform_release : ℕ → ℕ → ℕ → Bool → Api (Unit {0})
  perform_release now vault_id release_event_id is_drill = do
    letters ← ask (list_letters_for_signal_release vault_id)
    for_each letters (deliver_letter now release_event_id)
    finish_release now vault_id release_event_id is_drill

  abbrev releases_started : Metrics → Metrics
  releases_started m = record m { releases_started_total = inc m.releases_started_total }

  -- The id of the release event and the end of the cooling-off.
  unfoldable pub begin_release_with_cool : ℕ → ℕ → ReleaseReason → Bool → ℤ → Api (ℕ × ℕ)
  begin_release_with_cool now vault_id reason is_drill cool_seconds = do
    claimed ← call (claim_vault_cooling_off now vault_id active)
    ensure claimed conflict
    new_id ← draw
    release ← call (
        create_release_event_with_deadline new_id now vault_id reason is_drill
          (now + max_one cool_seconds))
    count releases_started
    exec (
        append_transparency_entry (if is_drill then "DRILL_STARTED" else "COOLING_OFF_STARTED") none
          (some vault_id))
    spawn (record {
      vault_id = vault_id;
      release_event_id = release.id;
      fires_at = now + max_one cool_seconds;
      is_drill = is_drill;
    })
    pure (release.id, now + max_one cool_seconds)

  unfoldable pub begin_release : ℕ → ℕ → ReleaseReason → Bool → Api (ℕ × ℕ)
  begin_release now vault_id reason is_drill = do
    vault ← ask_result (fetch_vault vault_id)
    begin_release_with_cool now vault_id reason is_drill vault.cooling_off_seconds

  -- The claim, and the release by the worker that wins it.
  unfoldable pub claim_and_perform : ℕ → ℕ → ℕ → Bool → Api (Unit {0})
  claim_and_perform now vault_id release_event_id is_drill = do
    won ← call (claim_vault_for_release vault_id)
    if won then perform_release now vault_id release_event_id is_drill else pure tt

  -- `elapse_release` after its sleep.
  unfoldable pub elapse_release : ℕ → Timer → Api (Unit {0})
  elapse_release now timer =
      claim_and_perform now timer.vault_id timer.release_event_id timer.is_drill

  unfoldable pub release_due : ℕ → ℕ × ℕ × Bool → Api (Unit {0})
  release_due now (vault_id, release_event_id, is_drill) =
      ignore_errors (claim_and_perform now vault_id release_event_id is_drill)

  unfoldable pub release_elapse_tick : ℕ → Api (Unit {0})
  release_elapse_tick now = do due ← ask (list_due_releases now); for_each due (release_due now)
