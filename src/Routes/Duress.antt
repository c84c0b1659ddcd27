-- ===== src/Routes/Duress.antt =====
-- crates/beacon-api/src/routes.rs: the covert trigger of a duress signal.
pub mod Freeze
pub mod Arming
use paschal.Base.{
  ℕ, ◌+◌, String, Bool, true, false, List, [], ◌∷◌, Option, none, some, not, Result, ok, err, any,
  shift, str_eq, if◌then◌else◌,
}
use paschal.Domain.VaultState
use paschal.Domain.VaultState.{VaultState, active, suspicious, alert}
use paschal.Db.Sql.{select}
use paschal.Db.Tables.{Store, Vault, DuressSignal, Principal, DbError, signal_trigger}
use paschal.Db.Vaults.{list_vaults, claim_vault_cooling_off}
use paschal.Db.Releases.{create_release_event_with_deadline, append_transparency_entry}
use paschal.Db.Accounts.{fetch_principal}
use paschal.Db.Deputies.{trigger_duress}
use paschal.App.World.{World, Platform, cooling_off_started, duress_alert}
use paschal.App.Monad.{Api, ◌>>=◌, ◌>>◌, continue, pure, ask, exec, call, notify, draw, for_each}

unfoldable pub alert_contact : Option String → Api (Unit {0})
alert_contact none = pure tt
alert_contact (some email) = notify duress_alert email

-- The mail to the principal, where the row is there.
unfoldable pub warn_principal : Result DbError Principal → Api (Unit {0})
warn_principal (err e) = pure tt
warn_principal (ok owner) = notify cooling_off_started owner.primary_email

abbrev watchable : Vault → Bool
watchable v = any (VaultState.eq v.state) (active ∷ suspicious ∷ alert ∷ [])

module _ ⦃p : Platform⦄ where
  unfoldable pub open_duress_release : ℕ → Vault → Api (Unit {0})
  open_duress_release now vault = do
    owner ← ask (fetch_principal vault.principal_id)
    warn_principal owner
    new_id ← draw
    release ← call (
        create_release_event_with_deadline new_id now vault.id signal_trigger false
          (shift now vault.cooling_off_seconds))
    exec (
        append_transparency_entry "DURESS_RELEASE_TRIGGERED" (some vault.principal_id)
          (some vault.id))

  unfoldable pub duress_release_vault : ℕ → Vault → Api (Unit {0})
  duress_release_vault now vault = do
    won ← call (claim_vault_cooling_off now vault.id vault.state)
    if won then open_duress_release now vault else pure tt

  unfoldable pub panic : ℕ → DuressSignal → Api (Unit {0})
  panic now row = if not (str_eq row.panic_mode "release") then pure tt else do
    vaults ← ask (list_vaults row.principal_id)
    for_each (select watchable vaults) (duress_release_vault now)

  unfoldable pub respond_to_trigger : ℕ → Option DuressSignal → Api (Unit {0})
  respond_to_trigger now none = pure tt
  respond_to_trigger now (some row) = do
    alert_contact row.alert_email
    exec (append_transparency_entry "DURESS_TRIGGERED" (some row.principal_id) none)
    panic now row

  unfoldable pub duress_webhook : ℕ → ℕ → Api (Unit {0})
  duress_webhook now webhook_id = do
    row ← call (trigger_duress now webhook_id)
    respond_to_trigger now row
