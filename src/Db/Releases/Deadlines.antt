-- ===== src/Db/Releases/Deadlines.antt =====
-- Which release events the poll loop finds.
use paschal.Base.{ℕ, ◌≡◌, ◌∙◌, Bool, false, ◌&&◌, some, arith, any, ◌==◌}
use paschal.Db.Sql.Lookup.{any-map, any-select, any-update_gone}
use paschal.Db.Tables.{Store}
use paschal.Db.Releases.{
  is_open, event_by_id, list_due_releases, mark_release_cancelled, mark_release_released,
}

-- The poll at this time finds the event.
abbrev pub is_polled : ℕ → ℕ → Store → Bool
is_polled now event_id s = any (λ d. d.1 == event_id) (list_due_releases now s)

-- In the database that a cancellation of an event, or its mark as released, leaves, the poll does
-- not find the event, at any time.
pub closed_release_not_due :
    (now later event_id : ℕ) (s : Store)
    → (is_polled later event_id (mark_release_cancelled now event_id s) ≡ false)
      × (is_polled later event_id (mark_release_released now event_id s) ≡ false)
unfolding list_due_releases mark_release_cancelled mark_release_released
closed_release_not_due now later event_id s = (
  any-map (λ d. d.1 == event_id) _ _
      ∙ any-select _ _ _
      ∙ any-update_gone _ (λ re. re.id == event_id && is_open re)
          (λ re. record re { cancelled_at = some now }) s.release_events (λ r q. ground arith)
          (λ r q. ground arith),
  any-map (λ d. d.1 == event_id) _ _
      ∙ any-select _ _ _
      ∙ any-update_gone _ (event_by_id event_id) (λ re. record re { released_at = some now })
          s.release_events (λ r q. ground arith) (λ r q. ground arith),
)
