-- ===== src/Db/Accounts.antt =====
-- crates/beacon-db/src/lib.rs: the queries on the tables `principal`, `session` and `magic_link`.
pub mod Sessions
pub mod Lifecycle
use paschal.Base.{
  ℕ, ◌+◌, ◌*◌, String, Bool, true, false, ◌&&◌, List, [], ◌∷◌, Option, none, some, Result, ok, err,
  ok_or, map, any, is_none, is_some, at_or_before, after, coalesce, if◌then◌else◌, ◌==◌, str_eq,
  pos,
}
use mathlib.Core.Option
use paschal.Domain.SubscriptionState
use paschal.Domain.SubscriptionState.{
  SubscriptionState, trialing, active, canceled, expired, deleted,
}
use paschal.Domain.BuddyResponse.{BuddyResponse}
use paschal.Db.Sql.{select, update, delete, affected, first, insert}
use paschal.Db.Tables.{
  Store, Principal, Subscription, CoSteward, Session, AuthRole, principal, co_steward, MagicLink,
  DuressSignal, Buddy, DbError, not_found,
}

abbrev minute : ℕ
minute = 60

abbrev hour : ℕ
hour = 3600

abbrev day : ℕ
day = 86400

abbrev pub principal_by_id : ℕ → Principal → Bool
principal_by_id principal_id p = p.id == principal_id

unfoldable pub fetch_principal : ℕ → Store → Result DbError Principal
fetch_principal principal_id s = ok_or not_found (first (principal_by_id principal_id) s.principals)

unfoldable pub fetch_principal_by_email : String → Store → Option Principal
fetch_principal_by_email email s = first (λ p. str_eq p.primary_email email) s.principals

-- The row, and whether it was created.
unfoldable pub upsert_principal_by_email : ℕ → String → Store → (Principal × Bool) × Store
upsert_principal_by_email new_id email s =
    elim (first (λ p. str_eq p.primary_email email) s.principals) [
      | some existing ↦ ((existing, false), s)
      | none ↦ ((row, true), record s { principals = insert row s.principals })
    ]
  where
    row : Principal
    row = record {
      id = new_id;
      display_name = none;
      primary_email = email;
      tos_accepted_at = none;
      deletion_requested_at = none;
      deletion_scheduled_for = none;
    }

-- A second request keeps the time of the first.
unfoldable pub request_account_deletion : ℕ → ℕ → ℕ → Store → Result DbError (Option ℕ) × Store
request_account_deletion now principal_id cool_off_days s =
    let principals =
      update (principal_by_id principal_id)
        (λ p. record p {
          deletion_requested_at = coalesce p.deletion_requested_at (some now);
          deletion_scheduled_for =
              coalesce p.deletion_scheduled_for (some (now + cool_off_days * day));
        })
        s.principals in
    (
      ok_or not_found (
          Option.map (λ p. p.deletion_scheduled_for)
            (first (principal_by_id principal_id) principals)),
      record s { principals = principals },
    )

-- WHERE id = $1 AND deletion_scheduled_for IS NOT NULL AND deletion_scheduled_for > now()
abbrev pub is_cancellable : ℕ → ℕ → Principal → Bool
is_cancellable now principal_id p = p.id == principal_id && after p.deletion_scheduled_for now

unfoldable pub cancel_account_deletion : ℕ → ℕ → Store → Result DbError (Unit {0}) × Store
cancel_account_deletion now principal_id s = (
  if affected (is_cancellable now principal_id) s.principals == 0 then err not_found else ok tt,
  record s {
    principals =
        update (is_cancellable now principal_id)
          (λ p. record p { deletion_requested_at = none; deletion_scheduled_for = none })
          s.principals;
  },
)

unfoldable pub list_due_account_deletions : ℕ → Store → List ℕ
list_due_account_deletions now s =
    map (λ p. p.id) (select (λ p. at_or_before p.deletion_scheduled_for now) s.principals)

-- `deleted-<id>@paschal.invalid`: the text is made by the caller.
unfoldable pub anonymise_principal : ℕ → String → Store → Store
anonymise_principal principal_id hashed s = record s {
  principals =
      update (principal_by_id principal_id)
        (λ p. record p {
          primary_email = hashed;
          display_name = none;
          deletion_requested_at = none;
          deletion_scheduled_for = none;
        })
        s.principals;
}

unfoldable pub create_magic_link : ℕ → ℕ → ℕ → ℕ → Store → Store
create_magic_link now principal_id token_hash ttl_minutes s = record s {
  magic_links = insert row s.magic_links;
}
  where
    row : MagicLink
    row = record {
      token_hash = token_hash;
      principal_id = principal_id;
      expires_at = now + ttl_minutes * minute;
      consumed_at = none;
    }

abbrev pub is_redeemable : ℕ → ℕ → MagicLink → Bool
is_redeemable now token_hash m =
    m.token_hash == token_hash && (is_none m.consumed_at && after (some m.expires_at) now)

unfoldable pub consume_magic_link : ℕ → ℕ → Store → Option ℕ × Store
consume_magic_link now token_hash s = (
  Option.map (λ m. m.principal_id) (first (is_redeemable now token_hash) s.magic_links),
  record s {
    magic_links =
        update (is_redeemable now token_hash) (λ m. record m { consumed_at = some now })
          s.magic_links;
  },
)

abbrev new_session : ℕ → ℕ → Option ℕ → AuthRole → ℕ → ℕ → Session
new_session now principal_id co_steward_id role token_hash ttl_hours = record {
  token_hash = token_hash;
  principal_id = principal_id;
  co_steward_id = co_steward_id;
  auth_role = role;
  expires_at = now + ttl_hours * hour;
  revoked_at = none;
}

-- `auth_role` has the default of the schema.
unfoldable pub create_session : ℕ → ℕ → ℕ → ℕ → Store → Store
create_session now principal_id token_hash ttl_hours s = record s {
  sessions = insert (new_session now principal_id none principal token_hash ttl_hours) s.sessions;
}

unfoldable pub create_co_steward_session : ℕ → ℕ → ℕ → ℕ → ℕ → Store → Store
create_co_steward_session now co_steward_id principal_id token_hash ttl_hours s = record s {
  sessions =
      insert (new_session now principal_id (some co_steward_id) co_steward token_hash ttl_hours)
        s.sessions;
}

-- WHERE token_hash = $1 AND revoked_at IS NULL AND expires_at > now()
abbrev pub is_live_session : ℕ → ℕ → Session → Bool
is_live_session now token_hash x =
    x.token_hash == token_hash && (is_none x.revoked_at && after (some x.expires_at) now)

unfoldable pub principal_for_session : ℕ → ℕ → Store → Option ℕ
principal_for_session now token_hash s =
    Option.map (λ x. x.principal_id) (first (is_live_session now token_hash) s.sessions)

-- auth_role = 'CO_STEWARD'
abbrev pub has_co_steward_role : AuthRole → Bool
has_co_steward_role co_steward = true
has_co_steward_role principal = false

abbrev pub is_co_steward_session : ℕ → ℕ → Session → Bool
is_co_steward_session now token_hash x =
    x.token_hash == token_hash
    && (has_co_steward_role x.auth_role
        && (is_some x.co_steward_id && (is_none x.revoked_at && after (some x.expires_at) now)))

unfoldable pub co_steward_for_session : ℕ → ℕ → Store → Option (ℕ × ℕ)
co_steward_for_session now token_hash s =
    elim (first (is_co_steward_session now token_hash) s.sessions) [
      | none ↦ none
      | some x ↦ Option.map (λ co_id. (co_id, x.principal_id)) x.co_steward_id
    ]

unfoldable pub revoke_session : ℕ → ℕ → Store → Store
revoke_session now token_hash s = record s {
  sessions =
      update (λ x. x.token_hash == token_hash && is_none x.revoked_at)
        (λ x. record x { revoked_at = some now }) s.sessions;
}
