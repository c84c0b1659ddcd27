-- ===== src/Db/Letters/Events.antt =====
-- The letters that a deputy sends on an event.
use paschal.Base.{ℕ, suc, ◌≡◌, ◌&&◌, none, some, ok, arith, is_none}
use paschal.Domain.ReleaseMode.{event_on_demand, eq}
use paschal.Domain.ReleaseMode.Codec.{eq_refl}
use paschal.Db.Sql.{update, affected, affected-update, affected_key, update_none}
use paschal.Db.Race.{wins, wins_once}
use paschal.Db.Tables.{Store, Letter}
use paschal.Db.Letters.{letter_by_id, fetch_letter, is_held_event, mark_letter_event_released}

-- However many deputies, and at least one, trigger an event letter that has one row and is still
-- held, it fires for exactly one of them.
event_letter_fires_once :
    (now letter_id deputies : ℕ) (s : Store) (l : Letter)
    → affected (letter_by_id letter_id) s.letters ≡ 1
    → fetch_letter letter_id s ≡ ok l
    → l.release_mode ≡ event_on_demand
    → l.event_released_at ≡ none
    → wins (mark_letter_event_released now letter_id) (suc deputies) s ≡ 1
unfolding fetch_letter mark_letter_event_released
event_letter_fires_once now letter_id deputies s l one h mode held =
    wins_once (mark_letter_event_released now letter_id) deputies s
      (ground (
        arith,
        affected_key (letter_by_id letter_id)
            (λ x. eq x.release_mode event_on_demand && is_none x.event_released_at) s.letters l,
        eq_refl event_on_demand,
      ))
      (rw done (rw (update_none (is_held_event letter_id) mark _ done)))
  where
    mark : Letter → Letter
    mark x = record x { event_released_at = some now }

    done : affected (is_held_event letter_id) (update (is_held_event letter_id) mark s.letters) ≡ 0
    done = affected-update (is_held_event letter_id) mark s.letters (λ r. ground arith)
