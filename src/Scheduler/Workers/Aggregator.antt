-- ===== src/Scheduler/Workers/Aggregator.antt =====
-- The aggregator's transition of a vault that it read earlier.
use paschal.Base.{ℕ, ◌≡◌, ◌≢◌, refl, true, false, none, ok, arith, Bool-cases, inl, inr}
use paschal.Domain.VaultState.{VaultState, cooling_off, eq}
use paschal.Domain.VaultState.Codec.{eq→≡}
use paschal.Db.Tables.{Vault}
use paschal.Db.Vaults.{fetch_vault}
use paschal.Db.Vaults.Claims.{HasOneVault}
use paschal.Db.Vaults.Cooling.{cooling_off_loser_unchanged}
use paschal.Db.Releases.{append_transparency_entry}
use paschal.Db.Deputies.{principal_in_duress}
use paschal.App.World.{World, Platform}
use paschal.Scheduler.Workers.{apply_decision, enter_cooling_off, record_decision}
use paschal.Scheduler.Release.Perform.{set_vault_state_lem}

not_eq : (a b : VaultState) → a ≢ b → eq a b ≡ false
not_eq a b ne = ground (arith, eq→≡ a b)

module _ ⦃p : Platform⦄ (now : ℕ) (seen : Vault) (w : World) where
  -- While the principal's duress signal is triggered, no decision of the aggregator opens the
  -- cooling-off of a vault: nothing changes.
  pub duress_freezes :
      principal_in_duress seen.principal_id w.db ≡ true
      → apply_decision now seen cooling_off w ≡ (ok tt, w)
  unfolding apply_decision enter_cooling_off eq
  duress_freezes h = elim (Bool-cases (eq cooling_off seen.state)) [
    | inl same ↦ rw same refl
    | inr other ↦ rw (other, h) refl
  ]

  -- A replica whose reading of the state of a vault, which has one row, is out of date loses the
  -- claim, and leaves everything as it is.
  pub stale_cooling_off_ignored :
      (v : Vault)
      → HasOneVault seen.id w.db
      → fetch_vault seen.id w.db ≡ ok v
      → v.state ≢ seen.state
      → apply_decision now seen cooling_off w ≡ (ok tt, w)
  unfolding apply_decision enter_cooling_off eq
  stale_cooling_off_ignored v one h c = elim (Bool-cases (eq cooling_off seen.state)) [
    | inl same ↦ rw same refl
    | inr other ↦ elim (Bool-cases (principal_in_duress seen.principal_id w.db)) [
      | inl frozen ↦ rw (other, frozen) refl
      | inr free ↦
          rw (other, free)
            (rw (cooling_off_loser_unchanged now seen.id seen.state w.db v one h c) refl)
    ]
  ]

  -- Any decision other than COOLING_OFF and the state that was read is written over the state of
  -- the vault, whatever that has become in the meantime.
  pub stale_decision_overwrites :
      (v : Vault) (decision : VaultState)
      → fetch_vault seen.id w.db ≡ ok v
      → decision ≢ seen.state
      → decision ≢ cooling_off
      → let (r, w') = apply_decision now seen decision w in
        (r ≡ ok tt) × (fetch_vault seen.id w'.db ≡ ok (record v { state = decision }))
  unfolding apply_decision record_decision append_transparency_entry fetch_vault
  stale_decision_overwrites v decision h ne nc =
      let set = set_vault_state_lem seen.id decision none none v w.db h in
      rw (not_eq decision seen.state ne, not_eq decision cooling_off nc) (rw set.0 (refl, set.1))
