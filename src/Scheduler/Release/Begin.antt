-- ===== src/Scheduler/Release/Begin.antt =====
-- The beginning of a release: the claim on an ACTIVE vault, and the deadline.
use paschal.Base.{
  ℕ, ◌+◌, ◌≡◌, refl, ◌∙◌, ap, Bool, false, ◌&&◌, ok, arith, any, leb, ◌==◌, ==_refl, max_one,
}
use paschal.Domain.VaultState.{active, eq}
use paschal.Domain.VaultState.Codec.{eq_refl}
use paschal.Db.Sql.Lookup.{any-map, any-select, any-insert, any_narrow}
use paschal.Db.Tables.{Store, Vault, ReleaseReason}
use paschal.Db.Vaults.{fetch_vault, claim_vault_cooling_off}
use paschal.Db.Vaults.Claims.{HasOneVault}
use paschal.Db.Vaults.Cooling.{
  cooled, claim_vault_cooling_off_lem, fetch_vault-cooling_off, vault_is_cooling-cooling_off,
}
use paschal.Db.Releases.{
  event_by_id, is_due, list_due_releases, create_release_event_with_deadline,
  append_transparency_entry,
}
use paschal.Db.Releases.Deadlines.{is_polled}
use paschal.App.World.{World, Platform}
use paschal.Scheduler.Release.{begin_release, begin_release_with_cool}

new_event_is_polled :
    (now later new_id vault_id ends_at : ℕ) (reason : ReleaseReason) (is_drill : Bool) (s : Store)
    (v : Vault)
    → HasOneVault vault_id s
    → fetch_vault vault_id s ≡ ok v
    → v.state ≡ active
    → any (event_by_id new_id) s.release_events ≡ false
    → is_polled later new_id
        (create_release_event_with_deadline new_id now vault_id reason is_drill ends_at
          (claim_vault_cooling_off now vault_id active s).1).1
      ≡ leb ends_at later
unfolding list_due_releases create_release_event_with_deadline claim_vault_cooling_off
new_event_is_polled now later new_id vault_id ends_at reason is_drill s v one h a fresh =
    any-map (λ d. d.1 == new_id) _ _
    ∙ any-select _ _ _
    ∙ any-insert _ _ s.release_events
    ∙ rw (==_refl new_id, vault_is_cooling-cooling_off now vault_id active s v one h a)
        (ground (arith, older))
  where
    older :
        any
          (λ x.
            x.id == new_id
            && is_due later
                (create_release_event_with_deadline new_id now vault_id reason is_drill ends_at
                  (claim_vault_cooling_off now vault_id active s).1).1
                x)
          s.release_events
        ≡ false
    older = any_narrow (event_by_id new_id) _ s.release_events (λ re q. ground arith) fresh

module _ ⦃p : Platform⦄ (now vault_id : ℕ) (reason : ReleaseReason) (is_drill : Bool) (w : World)
    (v : Vault) (one : HasOneVault vault_id w.db) (h : fetch_vault vault_id w.db ≡ ok v) where
  -- A release of an ACTIVE vault that has one row begins: the vault is in COOLING_OFF from now,
  -- and the poll finds the new release event exactly from the end of the cooling-off on, where no
  -- event has its id yet.
  pub begin_release_when_active :
      (later : ℕ)
      → v.state ≡ active
      → any (event_by_id (p.random w.drawn)) w.db.release_events ≡ false
      → let ends_at = now + max_one v.cooling_off_seconds in
        let (r, w') = begin_release now vault_id reason is_drill w in
        (r ≡ ok (p.random w.drawn, ends_at))
        × (fetch_vault vault_id w'.db ≡ ok (cooled now v))
        × (is_polled later (p.random w.drawn) w'.db ≡ leb ends_at later)
  unfolding begin_release begin_release_with_cool fetch_vault list_due_releases
      append_transparency_entry create_release_event_with_deadline
  begin_release_when_active later a fresh = rw h (
      rw
        (claim_vault_cooling_off_lem now vault_id active w.db v one h
          ∙ ap (λ x. eq x active) a
          ∙ eq_refl active)
        (
          refl,
          fetch_vault-cooling_off now vault_id active w.db v one h a,
          new_event_is_polled now later (p.random w.drawn) vault_id
              (now + max_one v.cooling_off_seconds) reason is_drill w.db v one h a fresh,
        ))
