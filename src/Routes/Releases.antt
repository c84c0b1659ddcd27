-- ===== src/Routes/Releases.antt =====
-- crates/beacon-api/src/routes.rs: force-release, cancel and drill.
pub mod Cancel
use paschal.Base.{ℕ, Bool, true, false, List, Option, none, some, pos, ◌==◌}
use paschal.Domain.VaultState
use paschal.Domain.VaultState.{active, cooling_off, can_transition}
use paschal.Domain.SubscriptionState.{allows_release}
use paschal.Db.Tables.{
  Store, Vault, ReleaseEvent, Principal, Subscription, manual_principal_release, drill,
}
use paschal.Db.Vaults.{fetch_vault, set_vault_state}
use paschal.Db.Releases.{fetch_open_release, mark_release_cancelled, append_transparency_entry}
use paschal.Db.Subscriptions.{fetch_subscription}
use paschal.Db.Accounts.{fetch_principal}
use paschal.App.World.{World, Platform, not_found, conflict, forbidden, cooling_off_cancelled}
use paschal.App.Monad.{
  Api, ◌>>=◌, ◌>>◌, continue, pure, ensure, ask, ask_result, exec, call_result, notify,
}
use paschal.Scheduler.Release.{begin_release, begin_release_with_cool}
use paschal.Routes.Auth.{current_principal}

-- Close the open release event.
unfoldable pub close_release : ℕ → Option ReleaseEvent → Api (Unit {0})
close_release now none = pure tt
close_release now (some open_release) = exec (mark_release_cancelled now open_release.id)

module _ ⦃p : Platform⦄ where
  unfoldable pub force_release : ℕ → Option ℕ → ℕ → Api (ℕ × ℕ)
  force_release now headers vault_id = do
    pid ← current_principal now headers
    vault ← ask_result (fetch_vault vault_id)
    ensure (vault.principal_id == pid) not_found
    sub ← ask_result (fetch_subscription pid)
    ensure (allows_release sub.state) forbidden
    ensure (VaultState.eq vault.state active) conflict
    ensure (can_transition vault.state cooling_off) conflict
    begin_release now vault.id manual_principal_release false

  unfoldable pub cancel_release : ℕ → Option ℕ → ℕ → Api Vault
  cancel_release now headers vault_id = do
    pid ← current_principal now headers
    vault ← ask_result (fetch_vault vault_id)
    ensure (vault.principal_id == pid) not_found
    ensure (VaultState.eq vault.state cooling_off) conflict
    updated ← call_result (set_vault_state vault.id active none none)
    open_release ← ask (fetch_open_release vault.id)
    close_release now open_release
    exec (append_transparency_entry "COOLING_OFF_CANCELLED" (some pid) (some vault.id))
    owner ← ask_result (fetch_principal pid)
    notify cooling_off_cancelled owner.primary_email
    pure updated

  unfoldable pub run_drill : ℕ → Option ℕ → ℕ → Api (ℕ × ℕ)
  run_drill now headers vault_id = do
    pid ← current_principal now headers
    vault ← ask_result (fetch_vault vault_id)
    ensure (vault.principal_id == pid) not_found
    sub ← ask_result (fetch_subscription pid)
    ensure (allows_release sub.state) forbidden
    ensure (VaultState.eq vault.state active) conflict
    begin_release_with_cool now vault.id drill true (pos 3)
