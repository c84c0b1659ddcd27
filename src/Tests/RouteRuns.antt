-- ===== src/Tests/RouteRuns.antt =====
-- Runs of the handlers.
use paschal.Base.{◌≡◌, refl, false, [], ◌∷◌, none, some, ok, err, arith}
use paschal.Domain.VaultState.{active, cooling_off}
use paschal.Domain.ReleaseMode.{event_on_demand}
use paschal.Db.Sql.{first, affected, latest, select}
use paschal.Db.Tables.{principal}
use paschal.Db.Vaults.{fetch_vault}
use paschal.Db.Letters.{fetch_letter}
use paschal.Db.Releases.{fetch_open_release}
use paschal.Db.Releases.Deadlines.{is_polled}
use paschal.Db.Accounts.{fetch_principal, consume_magic_link, principal_for_session}
use paschal.App.World.{World, unauthorised}
use paschal.Scheduler.Release.{elapse_release}
use paschal.Scheduler.Workers.{apply_decision}
use paschal.Routes.Auth.{current_principal, magic_link_verify, signout}
use paschal.Routes.Auth.SignIn.{magic_link_signs_in}
use paschal.Routes.Releases.{cancel_release}
use paschal.Routes.Releases.Cancel.{cancelled_release_never_fires}
use paschal.Routes.Deputies.{co_steward_release_event_letter}
use paschal.Routes.Deputies.Guard.{IsRefused, deputy_waits_for_release}
use paschal.Routes.Duress.{duress_webhook}
use paschal.Routes.Duress.Freeze.{duress_webhook_freezes}
use paschal.Tests.Fixtures.{
  counter, estate, world_with, vault_in, letter_as, open_event, owner, old_timer, triggered_duress,
}

-- The owner is signed in with the token 3, and has a magic link with the token 4.
abbrev signed_in : World
signed_in = world_with (record (estate cooling_off) {
  sessions =
      record {
        token_hash = 6;
        principal_id = 7;
        co_steward_id = none;
        auth_role = principal;
        expires_at = 9000;
        revoked_at = none;
      }
      ∷ [];
  magic_links =
      record { token_hash = 8; principal_id = 7; expires_at = 900; consumed_at = none } ∷ [];
})

magic_link_signs_in_example :
    let (r, w') = magic_link_verify ⦃p = counter⦄ 100 4 signed_in in
    (r ≡ ok (7, 500, "ada@example.org"))
    × ((current_principal ⦃p = counter⦄ 200 (some 500) w').0 ≡ ok 7)
    × ((current_principal ⦃p = counter⦄ 200
          (some 500)
          (signout ⦃p = counter⦄ 100 (some 500) w').1).0
        ≡ err unauthorised)
unfolding consume_magic_link fetch_principal first
magic_link_signs_in_example =
    magic_link_signs_in ⦃p = counter⦄ 100 200 4 7 signed_in owner refl refl refl (omega arith)

cancelled_release_never_fires_example :
    let (r, w') = cancel_release ⦃p = counter⦄ 200 (some 3) 1 signed_in in
    (r ≡ ok (vault_in active))
    × (fetch_vault 1 w'.db ≡ ok (vault_in active))
    × (elapse_release ⦃p = counter⦄ 3650 old_timer w' ≡ (ok tt, w'))
    × (is_polled 3650 40 w'.db ≡ false)
unfolding current_principal principal_for_session fetch_vault fetch_open_release fetch_principal
    first affected latest select
cancelled_release_never_fires_example =
    cancelled_release_never_fires ⦃p = counter⦄ 200 (some 3) signed_in (vault_in cooling_off) owner
      open_event refl refl refl refl refl refl 3650 old_timer refl

deputy_waits_for_release_example :
    IsRefused (co_steward_release_event_letter ⦃p = counter⦄ 200 (some 3) 12 signed_in) signed_in
unfolding fetch_letter fetch_vault first
deputy_waits_for_release_example =
    deputy_waits_for_release ⦃p = counter⦄ 200 12 (some 3) signed_in
      (letter_as 12 event_on_demand none) (vault_in cooling_off) refl refl (λ e. cc)

abbrev armed : World
armed = world_with (record (estate active) { duress_signals = triggered_duress ∷ [] })

duress_webhook_freezes_example :
    let (r, w') = duress_webhook ⦃p = counter⦄ 200 80 armed in
    (r ≡ ok tt)
    × (w'.db.vaults ≡ armed.db.vaults)
    × (apply_decision ⦃p = counter⦄ 300 (vault_in active) cooling_off w' ≡ (ok tt, w'))
unfolding first
duress_webhook_freezes_example =
    duress_webhook_freezes ⦃p = counter⦄ 200 300 80 armed triggered_duress (vault_in active) refl
      refl refl
