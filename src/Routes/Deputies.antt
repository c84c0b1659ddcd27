-- ===== src/Routes/Deputies.antt =====
-- crates/beacon-api/src/routes.rs: what a Co-Steward may do to the letters of a released vault.
pub mod Guard
pub mod Access
pub mod Redirect
use paschal.Base.{ℕ, Bool, true, false, ◌&&◌, Option, none, some, ◌==◌}
use paschal.Domain.VaultState
use paschal.Domain.VaultState.{released}
use paschal.Domain.ReleaseMode
use paschal.Domain.ReleaseMode.{event_on_demand}
use paschal.Db.Tables.{Store, Vault, Letter, CoSteward, RecipientChange, co_steward_is_active}
use paschal.Db.Vaults.{fetch_vault}
use paschal.Db.Letters.{fetch_letter}
use paschal.Db.Changes.{fetch_recipient_change, cancel_recipient_change}
use paschal.Db.Releases.{append_transparency_entry}
use paschal.Db.Deputies.{fetch_co_steward}
use paschal.App.World.{World, Platform, unauthorised, not_found, conflict}
use paschal.App.Monad.{
  require, Api, ◌>>=◌, ◌>>◌, continue, pure, ensure, ask, ask_result, exec, call,
}
use paschal.Scheduler.Workers.{trigger_event_release}
use paschal.Routes.Auth.{current_co_steward}

unfoldable pub authorise_postmortem : ℕ → ℕ → ℕ → Api (Unit {0})
authorise_postmortem co_id pid vault_id = do
  co ← ask_result (fetch_co_steward co_id)
  ensure (co_steward_is_active co && co.principal_id == pid) unauthorised
  vault ← ask_result (fetch_vault vault_id)
  ensure (vault.principal_id == pid) not_found
  ensure (VaultState.eq vault.state released) conflict

module _ ⦃p : Platform⦄ where
  unfoldable pub co_steward_cancel_recipient_change : ℕ → Option ℕ → ℕ → Api (Unit {0})
  co_steward_cancel_recipient_change now headers change_id = do
    deputy ← current_co_steward now headers
    found ← ask (fetch_recipient_change change_id)
    change ← require not_found found
    letter ← ask_result (fetch_letter change.letter_id)
    authorise_postmortem deputy.0 deputy.1 letter.vault_id
    cancelled ← call (cancel_recipient_change now change_id)
    ensure cancelled conflict
    exec (
        append_transparency_entry "RECIPIENT_CHANGE_CANCELLED" (some deputy.1)
          (some letter.vault_id))

  unfoldable pub co_steward_release_event_letter : ℕ → Option ℕ → ℕ → Api (Unit {0})
  co_steward_release_event_letter now headers letter_id = do
    deputy ← current_co_steward now headers
    letter ← ask_result (fetch_letter letter_id)
    authorise_postmortem deputy.0 deputy.1 letter.vault_id
    ensure (ReleaseMode.eq letter.release_mode event_on_demand) conflict
    trigger_event_release now letter.vault_id letter_id
