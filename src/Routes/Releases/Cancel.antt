-- ===== src/Routes/Releases/Cancel.antt =====
-- A release that the principal cancels.
use paschal.Base.{ℕ, ◌≡◌, refl, ◌∙◌, false, [], ◌∷◌, ◌++◌, Option, some, none, ok, ==_refl}
use paschal.Domain.VaultState.{active, cooling_off}
use paschal.Domain.VaultState.Codec.{eq_refl}
use paschal.Db.Sql.{affected-update_key}
use paschal.Db.Tables.{Store, Vault, Principal, ReleaseEvent}
use paschal.Db.Vaults.{by_id, fetch_vault, set_vault_state, with_state}
use paschal.Db.Vaults.Claims.{HasOneVault}
use paschal.Db.Releases.{
  fetch_open_release, mark_release_cancelled, append_transparency_entry, list_due_releases,
}
use paschal.Db.Releases.Deadlines.{is_polled, closed_release_not_due}
use paschal.Db.Accounts.{fetch_principal}
use paschal.App.World.{World, Platform, Timer, cooling_off_cancelled}
use paschal.Scheduler.Release.{elapse_release}
use paschal.Scheduler.Release.Perform.{set_vault_state_lem}
use paschal.Scheduler.Release.Elapse.{elapse_leaves_others}
use paschal.Routes.Auth.{current_principal}
use paschal.Routes.Releases.{cancel_release, close_release}

module _ ⦃p : Platform⦄ (now : ℕ) (headers : Option ℕ) (w : World) (v : Vault) (owner : Principal)
    (e : ReleaseEvent) (auth : current_principal now headers w ≡ (ok v.principal_id, w))
    (one : HasOneVault v.id w.db) (h : fetch_vault v.id w.db ≡ ok v) (cools : v.state ≡ cooling_off)
    (open_e : fetch_open_release v.id w.db ≡ some e)
    (o : fetch_principal v.principal_id w.db ≡ ok owner) where
  -- The database after the cancellation.
  closed : Store
  closed =
      append_transparency_entry "COOLING_OFF_CANCELLED" (some v.principal_id) (some v.id)
        (mark_release_cancelled now e.id (set_vault_state v.id active none none w.db).1)

  cancel_release_lem : cancel_release now headers v.id w ≡ (
    ok (record v { state = active }),
    record w {
      db = closed;
      outbox =
          w.outbox ++ record { template = cooling_off_cancelled; to = owner.primary_email } ∷ [];
    },
  )
  unfolding cancel_release close_release closed set_vault_state fetch_principal fetch_open_release
      append_transparency_entry mark_release_cancelled
  cancel_release_lem = rw auth (
      rw (h, ==_refl v.principal_id)
        (rw (cools, eq_refl cooling_off)
          (rw ((set_vault_state_lem v.id active none none v w.db h).0, set_vault_state)
            (rw (open_e, fetch_open_release) (rw (o, fetch_principal) refl)))))

  -- When the principal of a vault, whose session is valid, cancels its release in the
  -- cooling-off, and the vault has one row, a row of its principal and an open release event,
  -- then the vault is ACTIVE again, and in the world that is left a timer that was set for the
  -- vault changes nothing, and a poll does not find the latest of the events that were open,
  -- whenever they wake.
  pub cancelled_release_never_fires :
      (later : ℕ) (timer : Timer)
      → timer.vault_id ≡ v.id
      → let (r, w') = cancel_release now headers v.id w in
        (r ≡ ok (record v { state = active }))
        × (fetch_vault v.id w'.db ≡ ok (record v { state = active }))
        × (elapse_release later timer w' ≡ (ok tt, w'))
        × (is_polled later e.id w'.db ≡ false)
  unfolding closed set_vault_state append_transparency_entry mark_release_cancelled fetch_vault
      list_due_releases
  cancelled_release_never_fires later timer same = rw cancel_release_lem (
    refl,
    back,
    elapse_leaves_others later timer after_cancel (record v { state = active })
        (rw same (
          affected-update_key (by_id v.id) (by_id v.id) (with_state active none none) w.db.vaults
            (λ r. refl)
          ∙ one))
        (rw same back) (λ c. cc),
    (closed_release_not_due now later e.id (set_vault_state v.id active none none w.db).1).0,
  )
    where
      back : fetch_vault v.id closed ≡ ok (record v { state = active })
      back = (set_vault_state_lem v.id active none none v w.db h).1

      after_cancel : World
      after_cancel = record w {
        db = closed;
        outbox =
            w.outbox ++ record { template = cooling_off_cancelled; to = owner.primary_email } ∷ [];
      }
