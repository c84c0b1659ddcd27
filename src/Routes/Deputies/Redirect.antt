-- ===== src/Routes/Deputies/Redirect.antt =====
-- crates/beacon-api/src/routes.rs: the letters that a Co-Steward may administer, and the request
-- to change where a letter goes.
pub mod Hold
use paschal.Base.{
  ℕ, ◌+◌, ◌*◌, String, Bool, true, false, not, ◌&&◌, ◌||◌, List, [], ◌∷◌, ◌++◌, Option, none, some,
  ltb, ℤ, after, is_none, is_some, max_zero, ◌==◌, if◌then◌else◌,
}
use paschal.Base.Text.{contains, trim}
use paschal.Domain.VaultState
use paschal.Domain.VaultState.{released}
use paschal.Domain.ReleaseMode
use paschal.Domain.ReleaseMode.{event_on_demand}
use paschal.Db.Tables.{Store, Vault, Letter, RecipientChange, co_steward_is_active}
use paschal.Db.Vaults.{list_vaults}
use paschal.Db.Letters.{fetch_letter, list_letters}
use paschal.Db.Changes.{fetch_pending_recipient_change, request_recipient_change}
use paschal.Db.Releases.{append_transparency_entry}
use paschal.Db.Deputies.{fetch_co_steward, touch_co_steward_view}
use paschal.App.World.{
  World, Platform, bad_request, unauthorised, conflict, recipient_change_requested,
}
use paschal.App.Monad.{
  Api, ◌>>=◌, ◌>>◌, continue, pure, ensure, ask, ask_result, exec, call, notify, draw,
}
use paschal.Routes.Auth.{current_co_steward}
use paschal.Routes.Deputies.{authorise_postmortem}

pub record AdminLetterView : Type 0 where
  pub letter : Letter
  pub awaiting_event_trigger : Bool
  pub event_released : Bool
  pub pending_recipient_change : Option RecipientChange

-- A held event letter that has not been fired.
abbrev pub awaits_event : Letter → Bool
awaits_event la = ReleaseMode.eq la.release_mode event_on_demand && is_none la.event_released_at

abbrev pub admin_view : Store → Letter → AdminLetterView
admin_view s la = record {
  letter = la;
  awaiting_event_trigger = awaits_event la;
  event_released = is_some la.event_released_at;
  pending_recipient_change = fetch_pending_recipient_change la.id s;
}

unfoldable pub admin_views : List Letter → Store → List AdminLetterView
admin_views [] s = []
admin_views (la ∷ letters) s = admin_view s la ∷ admin_views letters s

-- The loop over the vaults, in which those that are not RELEASED are skipped.
unfoldable pub released_letters : List Vault → Store → List AdminLetterView
unfolding admin_views
released_letters [] s = []
released_letters (vault ∷ vaults) s =
    let rest = released_letters vaults s in
    if VaultState.eq vault.state released
    then admin_views (list_letters vault.id s) s ++ rest
    else rest

-- Only a delivery that is still ahead can be redirected.
unfoldable pub is_editable : ℕ → Letter → Bool
is_editable now letter = awaits_event letter || after letter.scheduled_release_at now

module _ ⦃p : Platform⦄ where
  unfoldable pub co_steward_admin_letters : ℕ → Option ℕ → Api (List AdminLetterView)
  unfolding released_letters
  co_steward_admin_letters now headers = do
    (co_id, pid) ← current_co_steward now headers
    co ← ask_result (fetch_co_steward co_id)
    ensure (co_steward_is_active co) unauthorised
    exec (touch_co_steward_view now co_id)
    vaults ← ask (list_vaults pid)
    ask (released_letters vaults)

  -- The change and the time at which it takes effect. A text's length is in bytes.
  unfoldable pub co_steward_update_recipient :
      ℕ → ℤ → (String → ℕ) → Option ℕ → ℕ → String → Api RecipientChange
  unfolding is_editable authorise_postmortem
  co_steward_update_recipient now hold_seconds byte_length headers letter_id body_email = do
    (co_id, pid) ← current_co_steward now headers
    letter ← ask_result (fetch_letter letter_id)
    authorise_postmortem co_id pid letter.vault_id
    ensure (contains b'@' (trim body_email) && not (ltb 320 (byte_length (trim body_email))))
        bad_request
    ensure (is_editable now letter) conflict
    id ← draw
    change ← call (
        request_recipient_change id now letter_id co_id letter.recipient_email (trim body_email)
          (now + max_zero hold_seconds))
    exec (append_transparency_entry "RECIPIENT_CHANGE_REQUESTED" (some pid) (some letter.vault_id))
    notify recipient_change_requested letter.recipient_email
    pure change
