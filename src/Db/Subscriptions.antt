-- ===== src/Db/Subscriptions.antt =====
-- crates/beacon-db/src/lib.rs: the queries on the table `subscription`.
pub mod Retention
use paschal.Base.{
  ℕ, ◌+◌, ◌*◌, Bool, ◌&&◌, List, [], ◌∷◌, Option, none, some, Result, ok_or, map, ℤ, pos,
  at_or_before, if◌then◌else◌, ◌==◌,
}
use mathlib.Core.Option
use paschal.Domain.SubscriptionState
use paschal.Domain.SubscriptionState.{
  SubscriptionState, trialing, active, canceled, expired, deleted,
}
use paschal.Db.Sql.{select, update, first, insert}
use paschal.Db.Tables.{Store, Subscription, DbError, not_found}

abbrev day : ℕ
day = 86400

abbrev pub of_principal : ℕ → Subscription → Bool
of_principal principal_id x = x.principal_id == principal_id

-- The CHECK that migrations/0005_pricing_tiers.sql puts on `plan_id` is not modelled.
unfoldable pub create_subscription : ℕ → ℕ → ℕ → Store → Subscription × Store
create_subscription now principal_id trial_days s =
    (row, record s { subscriptions = insert row s.subscriptions })
  where
    row : Subscription
    row = record {
      principal_id = principal_id;
      state = trialing;
      started_at = now;
      trial_end_at = some (now + trial_days * day);
      canceled_at = none;
      retention_until = none;
      extra_storage_bytes = pos 0;
    }

unfoldable pub fetch_subscription : ℕ → Store → Result DbError Subscription
fetch_subscription principal_id s =
    ok_or not_found (first (of_principal principal_id) s.subscriptions)

unfoldable pub cancel_subscription : ℕ → ℕ → ℕ → Store → Result DbError Subscription × Store
cancel_subscription now principal_id retention_days s =
    let subscriptions =
      update (of_principal principal_id)
        (λ x. record x {
          state = canceled;
          canceled_at = some now;
          retention_until = some (now + retention_days * day);
        })
        s.subscriptions in
    (
      ok_or not_found (first (of_principal principal_id) subscriptions),
      record s { subscriptions = subscriptions },
    )

-- WHERE principal_id = $1 AND state = …
abbrev pub of_principal_in : ℕ → SubscriptionState → Subscription → Bool
of_principal_in principal_id state x =
    x.principal_id == principal_id && SubscriptionState.eq x.state state

-- The row is returned only if it was updated.
unfoldable pub reactivate_subscription : ℕ → Store → Result DbError Subscription × Store
reactivate_subscription principal_id s = (
  ok_or not_found (
      Option.map {A = Subscription} reactivated
        (first (of_principal_in principal_id canceled) s.subscriptions)),
  record s {
    subscriptions = update (of_principal_in principal_id canceled) reactivated s.subscriptions;
  },
)
  where
    reactivated : Subscription → Subscription
    reactivated x = record x { state = active; canceled_at = none; retention_until = none }

-- WHERE state = 'CANCELED' AND retention_until IS NOT NULL AND retention_until <= now()
abbrev pub is_past_retention : ℕ → Subscription → Bool
is_past_retention now x =
    SubscriptionState.eq x.state canceled && at_or_before x.retention_until now

unfoldable pub list_canceled_past_retention : ℕ → Store → List ℕ
list_canceled_past_retention now s =
    map (λ x. x.principal_id) (select (is_past_retention now) s.subscriptions)

unfoldable pub expire_subscription : ℕ → Store → Store
expire_subscription principal_id s = record s {
  subscriptions =
      update (of_principal_in principal_id canceled) (λ x. record x { state = expired })
        s.subscriptions;
}

unfoldable pub delete_subscription : ℕ → Store → Store
delete_subscription principal_id s = record s {
  subscriptions =
      update (of_principal_in principal_id expired) (λ x. record x { state = deleted })
        s.subscriptions;
}
