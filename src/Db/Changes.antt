-- ===== src/Db/Changes.antt =====
-- crates/beacon-db/src/lib.rs: the queries on the table `letter_recipient_change`.
pub mod Holds
use paschal.Base.{ℕ, String, Bool, ◌&&◌, List, Option, none, some, map, is_none, at_or_before, ◌==◌}
use mathlib.Core.Option
use paschal.Db.Sql.{select, update, affected, first, insert, latest}
use paschal.Db.Tables.{Store, Letter, RecipientChange}
use paschal.Db.Letters.{letter_by_id}

unfoldable pub request_recipient_change :
    ℕ → ℕ → ℕ → ℕ → String → String → ℕ → Store → RecipientChange × Store
request_recipient_change new_id now letter_id co_steward_id old_email new_email effective_at s =
    (row, record s { recipient_changes = insert row s.recipient_changes })
  where
    row : RecipientChange
    row = record {
      id = new_id;
      letter_id = letter_id;
      co_steward_id = co_steward_id;
      old_email = old_email;
      new_email = new_email;
      requested_at = now;
      effective_at = effective_at;
      applied_at = none;
      cancelled_at = none;
    }

abbrev pub change_by_id : ℕ → RecipientChange → Bool
change_by_id change_id c = c.id == change_id

-- applied_at IS NULL AND cancelled_at IS NULL
abbrev pub is_pending : RecipientChange → Bool
is_pending c = is_none c.applied_at && is_none c.cancelled_at

unfoldable pub fetch_recipient_change : ℕ → Store → Option RecipientChange
fetch_recipient_change change_id s = first (change_by_id change_id) s.recipient_changes

unfoldable pub fetch_pending_recipient_change : ℕ → Store → Option RecipientChange
fetch_pending_recipient_change letter_id s =
    latest (λ c. c.requested_at)
      (select (λ c. c.letter_id == letter_id && is_pending c) s.recipient_changes)

-- WHERE id = $1 AND applied_at IS NULL AND cancelled_at IS NULL
abbrev pub is_pending_id : ℕ → RecipientChange → Bool
is_pending_id change_id c = c.id == change_id && is_pending c

unfoldable pub cancel_recipient_change : ℕ → ℕ → Store → Bool × Store
cancel_recipient_change now change_id s = (
  affected (is_pending_id change_id) s.recipient_changes == 1,
  record s {
    recipient_changes =
        update (is_pending_id change_id) (λ c. record c { cancelled_at = some now })
          s.recipient_changes;
  },
)

unfoldable pub list_due_recipient_changes : ℕ → Store → List ℕ
list_due_recipient_changes now s =
    map (λ c. c.id)
      (select (λ c. is_pending c && at_or_before (some c.effective_at) now) s.recipient_changes)

-- The statement with the CTE `chg`: the change is marked, and the letter takes the address.
unfoldable pub apply_recipient_change : ℕ → ℕ → Store → Option (ℕ × String) × Store
apply_recipient_change now change_id s =
    elim (first (is_pending_id change_id) s.recipient_changes) [
      | none ↦ (none, s)
      | some chg ↦ (
        Option.map (λ l. (l.id, chg.new_email)) (first (letter_by_id chg.letter_id) s.letters),
        record s {
          recipient_changes =
              update (is_pending_id change_id) (λ c. record c { applied_at = some now })
                s.recipient_changes;
          letters =
              update (letter_by_id chg.letter_id)
                (λ l. record l { recipient_email = chg.new_email }) s.letters;
        },
      )
    ]
