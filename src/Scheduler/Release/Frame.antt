-- ===== src/Scheduler/Release/Frame.antt =====
-- What a release leaves alone in the table of the vaults: all that its three updates leave alone.
use paschal.Base.{ℕ, ◌≡◌, refl, Bool, true, false, List, Option, none, some, if◌then◌else◌}
use paschal.Domain.VaultState.{VaultState, active, released, cooling_off, releasing}
use paschal.Db.Sql.{update}
use paschal.Db.Tables.{Vault}
use paschal.Db.Vaults.{by_id, in_state, set_vault_state, with_state, claim_vault_for_release}
use paschal.Db.Letters.{list_letters_for_signal_release}
use paschal.Db.Releases.{mark_release_released, append_transparency_entry}
use paschal.App.World.{World, Platform}
use paschal.App.Monad.{Api, for_each, pure, call, call_result}
use paschal.App.Monad.Laws.{Keeps, Keeps->>=}
use paschal.Scheduler.Release.{
  deliver_letter, finish_release, finish_drill, perform_release, claim_and_perform,
}
use paschal.Scheduler.Release.Deliver.{deliver_letters_lem}
use paschal.Base.{ap}

module _ ⦃p : Platform⦄ {B : Type 0} (g : List Vault → B) (vault_id : ℕ)
    (set_keeps : (state : VaultState) (started released_at : Option ℕ) (vaults : List Vault)
      → g (update (by_id vault_id) (with_state state started released_at) vaults) ≡ g vaults)
    (claim_keeps : (vaults : List Vault)
      → g (update (in_state vault_id cooling_off) (λ v. record v { state = releasing }) vaults)
        ≡ g vaults) where
  abbrev view : World → B
  view w = g w.db.vaults

  finish_drill-Keeps : (is_drill : Bool) → Keeps view (finish_drill vault_id is_drill)
  unfolding finish_drill set_vault_state
  finish_drill-Keeps false = λ w. refl
  finish_drill-Keeps true =
      Keeps->>= view (call_result (set_vault_state vault_id active none none)) _
        (λ w. set_keeps active none none w.db.vaults) (λ v w. refl)

  finish_release-Keeps :
      (now event_id : ℕ) (is_drill : Bool)
      → Keeps view (finish_release now vault_id event_id is_drill)
  unfolding finish_release set_vault_state mark_release_released append_transparency_entry
  finish_release-Keeps now event_id is_drill =
      Keeps->>= view (call_result (set_vault_state vault_id released none (some now))) _
        (λ w. set_keeps released none (some now) w.db.vaults) (λ v w. finish_drill-Keeps is_drill _)

  perform_release-Keeps :
      (now event_id : ℕ) (is_drill : Bool)
      → Keeps view (perform_release now vault_id event_id is_drill)
  unfolding perform_release
  perform_release-Keeps now event_id is_drill w =
      let letters = list_letters_for_signal_release vault_id w.db in
      Keeps->>= view (for_each letters (deliver_letter now event_id))
        (λ _. finish_release now vault_id event_id is_drill)
        (λ w'. ap g (deliver_letters_lem now event_id letters w').1.vaults)
        (λ _. finish_release-Keeps now event_id is_drill) w

  pub claim_and_perform-Keeps :
      (now event_id : ℕ) (is_drill : Bool)
      → Keeps view (claim_and_perform now vault_id event_id is_drill)
  unfolding claim_and_perform claim_vault_for_release
  claim_and_perform-Keeps now event_id is_drill =
      Keeps->>= view (call (claim_vault_for_release vault_id)) perform_if
        (λ w. claim_keeps w.db.vaults) perform_if_keeps
    where
      perform_if : Bool → Api (Unit {0})
      perform_if won = if won then perform_release now vault_id event_id is_drill else pure tt

      perform_if_keeps : (won : Bool) → Keeps view (perform_if won)
      perform_if_keeps true = perform_release-Keeps now event_id is_drill
      perform_if_keeps false = λ w. refl
