-- ===== src/Scheduler/Release/Perform.antt =====
-- `perform_release` on a vault that has been claimed: what it delivers, and where it leaves the
-- vault and the release event.
use paschal.Base.{
  ℕ, ◌≡◌, refl, ◌∙◌, ap, Bool, true, false, ◌&&◌, ◌||◌, List, Option, some, none, ok, ok_or, arith,
  any, ◌==◌, if◌then◌else◌,
}
use paschal.Domain.VaultState.{VaultState, active, released}
use paschal.Domain.ReleaseMode.{fires_on_signal}
use paschal.Db.Sql.{update, first, first-update, first_holds}
use paschal.Db.Tables.{Store, Vault, Letter, not_found, row_not_found}
use paschal.Db.Vaults.{by_id, fetch_vault, set_vault_state, with_state}
use paschal.Db.Letters.{letter_by_id, list_letters_for_signal_release}
use paschal.Db.Letters.Due.{signal_release_letters}
use paschal.Db.Releases.{mark_release_released, append_transparency_entry, list_due_releases}
use paschal.Db.Releases.Deadlines.{closed_release_not_due, is_polled}
use paschal.App.World.{World, Platform}
use paschal.App.Monad.{for_each}
use paschal.App.Monad.Laws.{bind-ok}
use paschal.Scheduler.Release.{deliver_letter, finish_release, finish_drill, perform_release}
use paschal.Scheduler.Release.Deliver.{is_claim_for, deliver_letters_lem, Kept}

pub set_vault_state_lem :
    (vault_id : ℕ) (state : VaultState) (started released_at : Option ℕ) (v : Vault) (s : Store)
    → fetch_vault vault_id s ≡ ok v
    → let (r, s') = set_vault_state vault_id state started released_at s in
      (r ≡ ok (with_state state started released_at v))
      × (fetch_vault vault_id s' ≡ ok (with_state state started released_at v))
unfolding set_vault_state fetch_vault
set_vault_state_lem vault_id state started released_at v s h =
    (ap (ok_or row_not_found) found, ap (ok_or not_found) found)
  where
    found :
        first
          (by_id vault_id)
          (update (by_id vault_id) (with_state state started released_at) s.vaults)
        ≡ some (with_state state started released_at v)
    found =
        first-update (by_id vault_id) (by_id vault_id) (with_state state started released_at)
          s.vaults (λ r. refl)
        ∙ ground (arith, first_holds (by_id vault_id) s.vaults v)

-- The vault as a release leaves it.
abbrev pub settled : ℕ → Bool → Vault → Vault
settled now is_drill v = record v {
  state = if is_drill then active else released;
  released_at = some now;
}

module _ ⦃p : Platform⦄ where
  finish_release_lem :
      (now vault_id event_id : ℕ) (is_drill : Bool) (w : World) (v : Vault)
      → fetch_vault vault_id w.db ≡ ok v
      → let (r, w') = finish_release now vault_id event_id is_drill w in
        (r ≡ ok tt)
        × (fetch_vault vault_id w'.db ≡ ok (settled now is_drill v))
        × (w'.db.release_claims ≡ w.db.release_claims)
        × (w'.db.release_events ≡ (mark_release_released now event_id w.db).release_events)
  unfolding finish_release finish_drill set_vault_state mark_release_released
      append_transparency_entry fetch_vault
  finish_release_lem now vault_id event_id false w v h =
      let one = set_vault_state_lem vault_id released none (some now) v w.db h in
      rw (one.0, set_vault_state) (refl, one.1, refl, refl)
  finish_release_lem now vault_id event_id true w v h =
      let one = set_vault_state_lem vault_id released none (some now) v w.db h in
      let two =
        set_vault_state_lem vault_id active none none (with_state released none (some now) v)
          (set_vault_state vault_id released none (some now) w.db).1 one.1 in
      rw (one.0, two.0, set_vault_state) (refl, two.1, refl, refl)

  -- The claimed release of a vault that exists succeeds: it issues a claim for every letter of the
  -- vault whose mode fires on a signal and for no other letter, it leaves the vault RELEASED (after
  -- a drill ACTIVE) with the time of the release, and no later poll finds its release event.
  pub perform_release_lem :
      (now later vault_id event_id : ℕ) (is_drill : Bool) (w : World) (v : Vault)
      → fetch_vault vault_id w.db ≡ ok v
      → let (r, w') = perform_release now vault_id event_id is_drill w in
        (r ≡ ok tt)
        × (fetch_vault vault_id w'.db ≡ ok (settled now is_drill v))
        × ((i : ℕ)
            → any (is_claim_for event_id i) w'.db.release_claims ≡ (
                any
                  (λ l. l.id == i && (l.vault_id == vault_id && fires_on_signal l.release_mode))
                  w.db.letters
                || any (is_claim_for event_id i) w.db.release_claims))
        × (is_polled later event_id w'.db ≡ false)
  unfolding perform_release fetch_vault list_due_releases mark_release_released
  perform_release_lem now later vault_id event_id is_drill w v h =
      rw
        (bind-ok (for_each letters (deliver_letter now event_id))
          (λ _. finish_release now vault_id event_id is_drill) w tt sent.0)
        (
          done.0,
          done.1,
          (λ i.
              ap (any (is_claim_for event_id i)) done.2
              ∙ sent.2 i
              ∙ ap (λ b. b || any (is_claim_for event_id i) w.db.release_claims)
                  (signal_release_letters vault_id i w.db)),
          polled,
        )
    where
      letters : List Letter
      letters = list_letters_for_signal_release vault_id w.db

      sent :
          let (r, w') = for_each letters (deliver_letter now event_id) w in
          (r ≡ ok tt)
          × Kept w w'
          × ((i : ℕ)
              → any (is_claim_for event_id i) w'.db.release_claims ≡ (
                  any (letter_by_id i) letters
                  || any (is_claim_for event_id i) w.db.release_claims))
      sent = deliver_letters_lem now event_id letters w

      w1 : World
      w1 = (for_each letters (deliver_letter now event_id) w).1

      kept : fetch_vault vault_id w1.db ≡ ok v
      kept = rw sent.1.vaults h

      done :
          let (r, w') = finish_release now vault_id event_id is_drill w1 in
          (r ≡ ok tt)
          × (fetch_vault vault_id w'.db ≡ ok (settled now is_drill v))
          × (w'.db.release_claims ≡ w1.db.release_claims)
          × (w'.db.release_events ≡ (mark_release_released now event_id w1.db).release_events)
      done = finish_release_lem now vault_id event_id is_drill w1 v kept

      polled :
          is_polled later event_id (finish_release now vault_id event_id is_drill w1).1.db ≡ false
      polled =
          rw done.3
            (closed_release_not_due now later event_id (record w1.db {
              vaults = (finish_release now vault_id event_id is_drill w1).1.db.vaults;
            })).1
