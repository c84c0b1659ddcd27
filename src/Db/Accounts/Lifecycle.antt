-- ===== src/Db/Accounts/Lifecycle.antt =====
-- The deletion of an account and its cooling-off.
use paschal.Base.{
  ℕ, ◌+◌, ◌*◌, ◌≡◌, ◌<◌, refl, ◌∙◌, Bool, false, none, some, ok, arith, any, ◌==◌, at_or_before,
  after, coalesce,
}
use paschal.Db.Sql.{affected, affected_key, first_holds}
use paschal.Db.Sql.Lookup.{any-map, any-select, any-update_key}
use paschal.Db.Tables.{Store, Principal}
use paschal.Db.Accounts.{
  principal_by_id, fetch_principal, request_account_deletion, cancel_account_deletion,
  is_cancellable, list_due_account_deletions,
}

-- The sweep at this time erases the account.
abbrev pub is_deletion_due : ℕ → ℕ → Store → Bool
is_deletion_due now principal_id s = any (λ i. i == principal_id) (list_due_account_deletions now s)

-- After a request the account of a principal with one row is erased exactly from the scheduled
-- time on, which is the time of an earlier request where there is one, and the end of the
-- cool-off otherwise.
pub deletion_window :
    (now later principal_id cool_off_days : ℕ) (s : Store) (p : Principal)
    → affected (principal_by_id principal_id) s.principals ≡ 1
    → fetch_principal principal_id s ≡ ok p
    → is_deletion_due later principal_id
        (request_account_deletion now principal_id cool_off_days s).1
      ≡ at_or_before (coalesce p.deletion_scheduled_for (some (now + cool_off_days * 86400))) later
unfolding fetch_principal request_account_deletion list_due_account_deletions
deletion_window now later principal_id cool_off_days s p one h =
    any-map (λ i. i == principal_id) _ _
    ∙ any-select _ _ _
    ∙ any-update_key (principal_by_id principal_id)
        (λ p. at_or_before p.deletion_scheduled_for later) (principal_by_id principal_id) request
        s.principals p (λ r. refl) one (ground arith)
    ∙ ground (arith, first_holds (principal_by_id principal_id) s.principals p)
  where
    request : Principal → Principal
    request p = record p {
      deletion_requested_at = coalesce p.deletion_requested_at (some now);
      deletion_scheduled_for =
          coalesce p.deletion_scheduled_for (some (now + cool_off_days * 86400));
    }

-- The deletion of the account of a principal with one row can be cancelled as long as its time
-- has not come: then no later sweep erases the account.
cancelled_deletion_never_due :
    (now later principal_id t : ℕ) (s : Store) (p : Principal)
    → affected (principal_by_id principal_id) s.principals ≡ 1
    → fetch_principal principal_id s ≡ ok p
    → p.deletion_scheduled_for ≡ some t
    → now < t
    → let (result, s') = cancel_account_deletion now principal_id s in
      (result ≡ ok tt) × (is_deletion_due later principal_id s' ≡ false)
unfolding fetch_principal cancel_account_deletion list_due_account_deletions
cancelled_deletion_never_due now later principal_id t s p one h sched early = (
  ground (
    arith,
    affected_key (principal_by_id principal_id) (λ p. after p.deletion_scheduled_for now)
        s.principals p,
  ),
  any-map (λ i. i == principal_id) _ _
      ∙ any-select _ _ _
      ∙ any-update_key (principal_by_id principal_id)
          (λ p. at_or_before p.deletion_scheduled_for later) (is_cancellable now principal_id)
          (λ p. record p { deletion_requested_at = none; deletion_scheduled_for = none })
          s.principals p (λ r. refl) one (ground arith)
      ∙ ground (arith, first_holds (principal_by_id principal_id) s.principals p),
)
