-- ===== src/Tests/ReleaseRuns.antt =====
-- Runs of the release pipeline.
use paschal.Base.{ℕ, ◌≡◌, refl, true, false, ok, any, ◌==◌, ◌&&◌, ◌||◌}
use paschal.Domain.VaultState.{active, cooling_off}
use paschal.Domain.ReleaseMode.{fires_on_signal}
use paschal.Db.Sql.{affected, first}
use paschal.Db.Tables.{manual_principal_release}
use paschal.Db.Vaults.{fetch_vault}
use paschal.Db.Vaults.Cooling.{cooled}
use paschal.Db.Releases.Deadlines.{is_polled}
use paschal.App.World.{World}
use paschal.Scheduler.Release.{perform_release, begin_release, elapse_release, release_elapse_tick}
use paschal.Scheduler.Release.Deliver.{is_claim_for}
use paschal.Scheduler.Release.Perform.{settled, perform_release_lem}
use paschal.Scheduler.Release.Begin.{begin_release_when_active}
use paschal.Scheduler.Release.Elapse.{elapse_releases_cooling_vault}
use paschal.Scheduler.Release.Poll.{IsSettled, poll_releases_due, poll_waits_for_deadline}
use paschal.Tests.Fixtures.{counter, estate, world_with, vault_in, old_timer}

abbrev cooling_world : World
cooling_world = world_with (estate cooling_off)

abbrev active_world : World
active_world = world_with (estate active)

perform_release_lem_example :
    let (r, w') = perform_release ⦃p = counter⦄ 4000 1 40 false cooling_world in
    (r ≡ ok tt)
    × (fetch_vault 1 w'.db ≡ ok (settled 4000 false (vault_in cooling_off)))
    × ((i : ℕ)
        → any (is_claim_for 40 i) w'.db.release_claims ≡ (
            any
              (λ l. l.id == i && (l.vault_id == 1 && fires_on_signal l.release_mode))
              cooling_world.db.letters
            || any (is_claim_for 40 i) cooling_world.db.release_claims))
    × (is_polled 5000 40 w'.db ≡ false)
unfolding fetch_vault first
perform_release_lem_example =
    perform_release_lem ⦃p = counter⦄ 4000 5000 1 40 false cooling_world (vault_in cooling_off) refl

poll_releases_due_example : IsSettled 1 (release_elapse_tick ⦃p = counter⦄ 4000 cooling_world).1
unfolding fetch_vault first affected
poll_releases_due_example =
    poll_releases_due ⦃p = counter⦄ 4000 1 cooling_world (vault_in cooling_off) refl refl refl

poll_waits_for_deadline_example :
    fetch_vault 1 (release_elapse_tick ⦃p = counter⦄ 3000 cooling_world).1.db
    ≡ fetch_vault 1 cooling_world.db
poll_waits_for_deadline_example = poll_waits_for_deadline ⦃p = counter⦄ 3000 1 cooling_world refl

begin_release_when_active_example :
    let (r, w') = begin_release ⦃p = counter⦄ 1000 1 manual_principal_release false active_world in
    (r ≡ ok (500, 4600))
    × (fetch_vault 1 w'.db ≡ ok (cooled 1000 (vault_in active)))
    × (is_polled 4600 500 w'.db ≡ true)
unfolding fetch_vault first affected
begin_release_when_active_example =
    begin_release_when_active ⦃p = counter⦄ 1000 1 manual_principal_release false active_world
      (vault_in active) refl refl 4600 refl refl

elapse_releases_cooling_vault_example :
    let (r, w') = elapse_release ⦃p = counter⦄ 3650 old_timer cooling_world in
    (r ≡ ok tt) × (fetch_vault 1 w'.db ≡ ok (settled 3650 false (vault_in cooling_off)))
unfolding fetch_vault first affected
elapse_releases_cooling_vault_example =
    elapse_releases_cooling_vault ⦃p = counter⦄ 3650 old_timer cooling_world (vault_in cooling_off)
      refl refl refl
