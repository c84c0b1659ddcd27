-- ===== src/Scheduler/Release/Elapse.antt =====
-- The claim and the release that follows it, by a timer or by the poll loop.
use paschal.Base.{ℕ, ◌≡◌, ◌≢◌, refl, ◌∙◌, ap, Bool, some, ok, ok_or, arith}
use paschal.Domain.VaultState
use paschal.Domain.VaultState.{VaultState, active, released, cooling_off, releasing}
use paschal.Domain.VaultState.Codec.{eq_refl}
use paschal.Db.Sql.{update, first, first-update, first_holds}
use paschal.Db.Tables.{Store, Vault, not_found}
use paschal.Db.Vaults.{by_id, in_state, fetch_vault, claim_vault_for_release}
use paschal.Db.Vaults.Claims.{HasOneVault, claim_vault_for_release_lem, claim_loser_unchanged}
use paschal.App.World.{World, Platform, Timer}
use paschal.Scheduler.Release.{claim_and_perform, elapse_release}
use paschal.Scheduler.Release.Perform.{settled, perform_release_lem}

claimed_vault :
    (vault_id : ℕ) (s : Store) (v : Vault)
    → fetch_vault vault_id s ≡ ok v
    → v.state ≡ cooling_off
    → fetch_vault vault_id (claim_vault_for_release vault_id s).1
      ≡ ok (record v { state = releasing })
unfolding claim_vault_for_release fetch_vault
claimed_vault vault_id s v h c = ap (ok_or not_found) found
  where
    found :
        first
          (by_id vault_id)
          (update (in_state vault_id cooling_off) (λ v. record v { state = releasing }) s.vaults)
        ≡ some (record v { state = releasing })
    found =
        first-update (by_id vault_id) (in_state vault_id cooling_off)
          (λ v. record v { state = releasing }) s.vaults (λ r. refl)
        ∙ ground (arith, first_holds (by_id vault_id) s.vaults v, eq_refl cooling_off)

module _ ⦃p : Platform⦄ where
  pub claim_and_perform_lem :
      (now vault_id event_id : ℕ) (is_drill : Bool) (w : World) (v : Vault)
      → HasOneVault vault_id w.db
      → fetch_vault vault_id w.db ≡ ok v
      → v.state ≡ cooling_off
      → let (r, w') = claim_and_perform now vault_id event_id is_drill w in
        (r ≡ ok tt) × (fetch_vault vault_id w'.db ≡ ok (settled now is_drill v))
  unfolding claim_and_perform
  claim_and_perform_lem now vault_id event_id is_drill w v one h c =
      let won =
        claim_vault_for_release_lem vault_id w.db v one h
        ∙ ap (λ x. VaultState.eq x cooling_off) c
        ∙ eq_refl cooling_off in
      let done =
        perform_release_lem now now vault_id event_id is_drill
          (record w { db = (claim_vault_for_release vault_id w.db).1 })
          (record v { state = releasing }) (claimed_vault vault_id w.db v h c) in
      rw won (done.0, done.1)

  pub claim_and_perform_idle :
      (now vault_id event_id : ℕ) (is_drill : Bool) (w : World) (v : Vault)
      → HasOneVault vault_id w.db
      → fetch_vault vault_id w.db ≡ ok v
      → v.state ≢ cooling_off
      → claim_and_perform now vault_id event_id is_drill w ≡ (ok tt, w)
  unfolding claim_and_perform
  claim_and_perform_idle now vault_id event_id is_drill w v one h c =
      rw (claim_loser_unchanged vault_id w.db v one h c) refl

  -- A timer that wakes while its vault, which has one row, is in COOLING_OFF releases the vault,
  -- whichever release event the timer was set for and whatever that event's or the open event's
  -- deadline is.
  pub elapse_releases_cooling_vault :
      (now : ℕ) (timer : Timer) (w : World) (v : Vault)
      → HasOneVault timer.vault_id w.db
      → fetch_vault timer.vault_id w.db ≡ ok v
      → v.state ≡ cooling_off
      → let (r, w') = elapse_release now timer w in
        (r ≡ ok tt) × (fetch_vault timer.vault_id w'.db ≡ ok (settled now timer.is_drill v))
  unfolding elapse_release
  elapse_releases_cooling_vault now timer w v one h c =
      claim_and_perform_lem now timer.vault_id timer.release_event_id timer.is_drill w v one h c

  -- A timer that wakes when its vault, which has one row, is not in COOLING_OFF (the release was
  -- cancelled, or has been performed) changes nothing.
  pub elapse_leaves_others :
      (now : ℕ) (timer : Timer) (w : World) (v : Vault)
      → HasOneVault timer.vault_id w.db
      → fetch_vault timer.vault_id w.db ≡ ok v
      → v.state ≢ cooling_off
      → elapse_release now timer w ≡ (ok tt, w)
  unfolding elapse_release
  elapse_leaves_others now timer w v one h c =
      claim_and_perform_idle now timer.vault_id timer.release_event_id timer.is_drill w v one h c
