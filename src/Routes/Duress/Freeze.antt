-- ===== src/Routes/Duress/Freeze.antt =====
-- What the covert trigger of a signal in the mode "freeze" does.
use paschal.Base.{
  ℕ, String, ◌≡◌, refl, ◌∙◌, ap, Bool, true, false, ◌&&◌, List, [], ◌∷◌, Option, some, none, ok,
  arith, any, ◌==◌, ==_refl, str_eq, is_some, coalesce,
}
use paschal.Domain.VaultState.{cooling_off}
use paschal.Db.Sql.{first, first-update, first_holds}
use paschal.Db.Tables.{Vault, DuressSignal}
use paschal.Db.Releases.{append_transparency_entry}
use paschal.Db.Deputies.{trigger_duress, principal_in_duress, has_webhook}
use paschal.App.World.{World, Platform}
use paschal.App.Monad.{◌>>◌, exec}
use paschal.Scheduler.Workers.{apply_decision}
use paschal.Scheduler.Workers.Aggregator.{duress_freezes}
use paschal.Routes.Duress.{duress_webhook, respond_to_trigger, panic, alert_contact}

any-first :
    {A : Type 0} (p q : A → Bool) (rows : List A) (r : A)
    → first p rows ≡ some r
    → q r ≡ true
    → any q rows ≡ true
unfolding first
any-first p q [] r h e = ground arith
any-first p q (x ∷ xs) r h e = ground (arith, any-first p q xs r)

-- The row of the signal after its trigger.
abbrev fired : ℕ → DuressSignal → DuressSignal
fired now d = record d {
  triggered_at = coalesce d.triggered_at (some now);
  last_alert_at = some now;
}

module _ (now webhook_id : ℕ) (w : World) (d : DuressSignal)
    (h : first (has_webhook webhook_id) w.db.duress_signals ≡ some d) where
  trigger_duress_row :
      first (has_webhook webhook_id) (trigger_duress now webhook_id w.db).1.duress_signals
      ≡ some (fired now d)
  unfolding trigger_duress
  trigger_duress_row =
      first-update (has_webhook webhook_id) (has_webhook webhook_id) (fired now) w.db.duress_signals
        (λ r. refl)
      ∙ ground (arith, first_holds (has_webhook webhook_id) w.db.duress_signals d)

  trigger_duress_lem :
      ((trigger_duress now webhook_id w.db).0 ≡ some (fired now d))
      × (principal_in_duress d.principal_id (trigger_duress now webhook_id w.db).1 ≡ true)
  unfolding trigger_duress principal_in_duress
  trigger_duress_lem = (
    trigger_duress_row,
    any-first (has_webhook webhook_id) _ _ (fired now d) trigger_duress_row
        (in_duress d.triggered_at),
  )
    where
      in_duress :
          (t : Option ℕ)
          → (d.principal_id == d.principal_id && is_some (coalesce t (some now))) ≡ true
      in_duress none = ground (arith, ==_refl d.principal_id)
      in_duress (some t) = ground (arith, ==_refl d.principal_id)

module _ ⦃p : Platform⦄ where
  respond_quietly :
      (now : ℕ) (row : DuressSignal) (email : Option String) (w : World)
      → str_eq row.panic_mode "release" ≡ false
      → let (r, w') =
          (alert_contact email
              >> (exec (append_transparency_entry "DURESS_TRIGGERED" (some row.principal_id) none)
                  >> panic now row))
            w in
        (r ≡ ok tt)
        × (w'.db ≡ append_transparency_entry "DURESS_TRIGGERED" (some row.principal_id) none w.db)
  unfolding alert_contact panic
  respond_quietly now row none w mode = rw mode (refl, refl)
  respond_quietly now row (some email) w mode = rw mode (refl, refl)

  -- The trigger of a signal that is not in the mode "release" leaves every vault as it is, and in
  -- the world that it leaves no decision of the aggregator, at any time, opens the cooling-off of
  -- a vault of that principal.
  pub duress_webhook_freezes :
      (now later webhook_id : ℕ) (w : World) (d : DuressSignal) (seen : Vault)
      → first (has_webhook webhook_id) w.db.duress_signals ≡ some d
      → str_eq d.panic_mode "release" ≡ false
      → seen.principal_id ≡ d.principal_id
      → let (r, w') = duress_webhook now webhook_id w in
        (r ≡ ok tt)
        × (w'.db.vaults ≡ w.db.vaults)
        × (apply_decision later seen cooling_off w' ≡ (ok tt, w'))
  unfolding duress_webhook respond_to_trigger append_transparency_entry trigger_duress
      principal_in_duress
  duress_webhook_freezes now later webhook_id w d seen h mode own =
      let triggered = trigger_duress_lem now webhook_id w d h in
      let w1 : World = record w { db = (trigger_duress now webhook_id w.db).1 } in
      let answer = respond_quietly now (fired now d) d.alert_email w1 mode in
      rw triggered.0 (
        answer.0,
        ap (λ db. db.vaults) answer.1,
        duress_freezes later seen _ (rw (own, answer.1) triggered.1),
      )
