-- ===== src/Scheduler/Workers/Schedule.antt =====
-- What the schedule does to a letter whose date has come.
use paschal.Base.{ℕ, ◌≡◌, ◌∙◌, true, false, none, arith, any, ◌==◌}
use paschal.Db.Sql.Lookup.{any-map, any-select, any-update_gone}
use paschal.Db.Vaults.{fetch_vault}
use paschal.Db.Letters.{letter_by_id, list_scheduled_letters_due, clear_schedule}
use paschal.App.World.{World, Platform}
use paschal.Scheduler.Workers.{fire_scheduled, begin_and_clear, may_fire}

module _ ⦃p : Platform⦄ where
  -- A scheduled letter that fires, its vault being ACTIVE with a subscription that allows
  -- releases, is off the schedule at every later time, whether or not the release of its vault
  -- has begun.
  fired_letter_unscheduled :
      (now later vault_id letter_id : ℕ) (w : World)
      → may_fire (fetch_vault vault_id w.db) w.db ≡ true
      → any
          (λ p. p.1 == letter_id)
          (list_scheduled_letters_due later (fire_scheduled now (vault_id, letter_id) w).1.db)
        ≡ false
  unfolding fire_scheduled begin_and_clear clear_schedule list_scheduled_letters_due
  fired_letter_unscheduled now later vault_id letter_id w h = rw h (
      any-map (λ p. p.1 == letter_id) _ _
      ∙ any-select _ _ _
      ∙ any-update_gone _ (letter_by_id letter_id) (λ l. record l { scheduled_release_at = none }) _
          (λ l q. ground arith) (λ l q. ground arith))
