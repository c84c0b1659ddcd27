-- ===== src/Db/Changes/Holds.antt =====
-- Changes of a recipient's address: the hold, the cancellation and the application.
use paschal.Base.{
  ℕ, String, ◌≡◌, refl, ◌∙◌, false, ◌&&◌, none, some, arith, any, ◌==◌, leb, at_or_before,
  Option-cases, inl, inr,
}
use paschal.Db.Sql.{first}
use paschal.Db.Sql.Lookup.{
  first-update_gone, any-map, any-select, any-update_gone, any-insert, any_narrow,
  affected-first-none,
}
use paschal.Db.Tables.{Store, RecipientChange}
use paschal.Db.Changes.{
  is_pending_id, is_pending, cancel_recipient_change, apply_recipient_change,
  list_due_recipient_changes, request_recipient_change,
}

apply_nothing :
    (now change_id : ℕ) (s : Store)
    → first (is_pending_id change_id) s.recipient_changes ≡ none
    → apply_recipient_change now change_id s ≡ (none, s)
unfolding apply_recipient_change
apply_nothing now change_id s h = rw (h, apply_recipient_change) refl

-- A change that was cancelled in its hold window is not applied afterwards, nor listed as due.
cancelled_change_not_applied :
    (now later change_id : ℕ) (s : Store)
    → let s' = (cancel_recipient_change now change_id s).1 in
      (apply_recipient_change later change_id s' ≡ (none, s'))
      × (any (λ i. i == change_id) (list_due_recipient_changes later s') ≡ false)
unfolding cancel_recipient_change list_due_recipient_changes
cancelled_change_not_applied now later change_id s = (
  apply_nothing later change_id _ (
      first-update_gone (is_pending_id change_id) (is_pending_id change_id) cancelled
        s.recipient_changes (λ r q. q) (λ r q. ground arith)),
  any-map (λ i. i == change_id) _ _
      ∙ any-select _ _ _
      ∙ any-update_gone _ (is_pending_id change_id) cancelled s.recipient_changes
          (λ r q. ground arith) (λ r q. ground arith),
)
  where
    cancelled : RecipientChange → RecipientChange
    cancelled c = record c { cancelled_at = some now }

applied_gone :
    (now change_id : ℕ) (s : Store)
    → first (is_pending_id change_id) (apply_recipient_change now change_id s).1.recipient_changes
      ≡ none
unfolding apply_recipient_change
applied_gone now change_id s =
    elim (Option-cases (first (is_pending_id change_id) s.recipient_changes)) [
      | inl e ↦ rw (e, apply_recipient_change) e
      | inr (chg, e) ↦
          rw (e, apply_recipient_change)
            (first-update_gone (is_pending_id change_id) (is_pending_id change_id)
              (λ c. record c { applied_at = some now }) s.recipient_changes (λ r q. q)
              (λ r q. ground arith))
    ]

-- A change that was applied can be neither applied again nor cancelled.
pub applied_change_is_final :
    (now later change_id : ℕ) (s : Store)
    → let s' = (apply_recipient_change now change_id s).1 in
      (apply_recipient_change later change_id s' ≡ (none, s'))
      × ((cancel_recipient_change later change_id s').0 ≡ false)
unfolding cancel_recipient_change
applied_change_is_final now later change_id s = (
  apply_nothing later change_id _ (applied_gone now change_id s),
  rw (affected-first-none (is_pending_id change_id) _ (applied_gone now change_id s)) refl,
)

-- A requested change with a new id is due exactly from the end of its hold on.
pub recipient_change_hold :
    (new_id now later letter_id co_steward_id effective_at : ℕ) (old_email new_email : String)
    (s : Store)
    → any (λ c. c.id == new_id) s.recipient_changes ≡ false
    → let s' =
        (request_recipient_change new_id now letter_id co_steward_id old_email new_email
          effective_at s).1 in
      any (λ i. i == new_id) (list_due_recipient_changes later s') ≡ leb effective_at later
unfolding request_recipient_change list_due_recipient_changes
recipient_change_hold new_id now later letter_id co_steward_id effective_at old_email new_email s
      fresh =
    any-map (λ i. i == new_id) _ _
    ∙ any-select _ _ _
    ∙ any-insert _ _ _
    ∙ ground (
      arith,
      any_narrow (λ c. c.id == new_id)
          (λ c. c.id == new_id && (is_pending c && at_or_before (some c.effective_at) later))
          s.recipient_changes (λ r q. ground arith) fresh,
    )
