-- ===== src/Db/Subscriptions/Retention.antt =====
-- The retention window of a canceled subscription.
use paschal.Base.{
  ℕ, ◌+◌, ◌*◌, ◌≡◌, refl, ◌∙◌, Bool, false, ◌&&◌, some, ok, err, arith, any, leb, ◌==◌,
}
use paschal.Domain.SubscriptionState.{canceled, expired, eq}
use paschal.Domain.SubscriptionState.Codec.{eq_refl}
use paschal.Db.Sql.{affected, first_holds}
use paschal.Db.Sql.Lookup.{any-map, any-select, any-update_gone, first-update_gone, any-update_key}
use paschal.Db.Tables.{Store, Subscription, not_found}
use paschal.Db.Subscriptions.{
  of_principal, of_principal_in, is_past_retention, fetch_subscription, cancel_subscription,
  reactivate_subscription, list_canceled_past_retention, expire_subscription,
}

-- The sweep at this time finds the principal.
abbrev pub is_swept : ℕ → ℕ → Store → Bool
is_swept now principal_id s = any (λ i. i == principal_id) (list_canceled_past_retention now s)

-- A subscription that has one row and is canceled is swept exactly from the end of its retention
-- window on.
pub retention_window :
    (now later principal_id retention_days : ℕ) (s : Store) (x : Subscription)
    → affected (of_principal principal_id) s.subscriptions ≡ 1
    → fetch_subscription principal_id s ≡ ok x
    → is_swept later principal_id (cancel_subscription now principal_id retention_days s).1
      ≡ leb (now + retention_days * 86400) later
unfolding fetch_subscription cancel_subscription list_canceled_past_retention
retention_window now later principal_id retention_days s x one h =
    any-map (λ i. i == principal_id) _ _
    ∙ any-select _ _ _
    ∙ any-update_key (of_principal principal_id) (is_past_retention later)
        (of_principal principal_id) cancel s.subscriptions x (λ r. refl) one (ground arith)
    ∙ ground (arith, eq_refl canceled, first_holds (of_principal principal_id) s.subscriptions x)
  where
    cancel : Subscription → Subscription
    cancel x = record x {
      state = canceled;
      canceled_at = some now;
      retention_until = some (now + retention_days * 86400);
    }

-- From the moment a subscription is marked EXPIRED no sweep finds it again, at any time, and it can
-- no longer be reactivated.
expired_is_left_behind :
    (now principal_id : ℕ) (s : Store)
    → let s' = expire_subscription principal_id s in
      (is_swept now principal_id s' ≡ false)
      × ((reactivate_subscription principal_id s').0 ≡ err not_found)
unfolding expire_subscription list_canceled_past_retention reactivate_subscription
expired_is_left_behind now principal_id s = (
  any-map (λ i. i == principal_id) _ _
      ∙ any-select _ _ _
      ∙ any-update_gone (λ x. x.principal_id == principal_id && is_past_retention now x)
          (of_principal_in principal_id canceled) (λ x. record x { state = expired })
          s.subscriptions (λ r q. ground arith) (λ r q. unfold eq in ground arith),
  rw (
      first-update_gone (of_principal_in principal_id canceled)
        (of_principal_in principal_id canceled) (λ x. record x { state = expired }) s.subscriptions
        (λ r q. q) (λ r q. unfold eq in ground arith)),
)
