-- ===== src/Db/Letters/Due.antt =====
-- Which letters a release and the schedule pick, against the predicates of `ReleaseMode`.
use paschal.Base.{ℕ, ◌≡◌, ◌∙◌, ◌&&◌, [], ◌∷◌, arith, any, ◌==◌, at_or_before}
use paschal.Domain.ReleaseMode.{
  signal_or_scheduled, fires_on_signal, fires_on_schedule, eq, scheduled_only,
}
use paschal.Db.Sql.Lookup.{any-select, any-order_by, any-ext, any-map}
use paschal.Db.Tables.{Store}
use paschal.Db.Letters.{
  letter_by_id, mode_in, list_letters_for_signal_release, list_scheduled_letters_due,
}

-- A release of a vault delivers a letter exactly when the letter lies in that vault and its mode
-- fires on a signal, so no time-capsule and no held event letter.
pub signal_release_letters :
    (vault_id letter_id : ℕ) (s : Store)
    → any (letter_by_id letter_id) (list_letters_for_signal_release vault_id s)
      ≡ any
          (λ l. l.id == letter_id && (l.vault_id == vault_id && fires_on_signal l.release_mode))
          s.letters
unfolding list_letters_for_signal_release fires_on_signal eq
signal_release_letters vault_id letter_id s =
    any-order_by (letter_by_id letter_id) (λ l. l.sealed_at) _
    ∙ any-select (letter_by_id letter_id) _ s.letters
    ∙ any-ext _ _ s.letters (λ r. ground arith)

-- The schedule picks a letter exactly when its date has come and its mode fires on a schedule.
pub scheduled_letters_due :
    (now letter_id : ℕ) (s : Store)
    → any (λ p. p.1 == letter_id) (list_scheduled_letters_due now s)
      ≡ any
          (λ l.
            l.id == letter_id
            && (at_or_before l.scheduled_release_at now && fires_on_schedule l.release_mode))
          s.letters
unfolding list_scheduled_letters_due fires_on_schedule eq
scheduled_letters_due now letter_id s =
    any-map (λ p. p.1 == letter_id) _ _
    ∙ any-select _ _ s.letters
    ∙ any-ext
        (λ l.
          l.id == letter_id
          && (at_or_before l.scheduled_release_at now
              && mode_in (signal_or_scheduled ∷ scheduled_only ∷ []) l))
        _ s.letters (λ r. ground arith)
