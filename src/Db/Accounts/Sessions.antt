-- ===== src/Db/Accounts/Sessions.antt =====
-- Sign-in links, sessions and their revocation.
use paschal.Base.{ℕ, ◌+◌, ◌*◌, ◌≤◌, ◌<◌, ◌≡◌, ◌&&◌, none, some, ap, arith, ◌==◌, is_none}
use mathlib.Core.Option
use paschal.Db.Sql.{first}
use paschal.Db.Sql.Lookup.{first-insert, first_narrow, first-update_gone}
use paschal.Db.Tables.{Store, Session, MagicLink, co_steward, principal}
use paschal.Db.Accounts.{
  consume_magic_link, is_redeemable, create_session, create_co_steward_session,
  principal_for_session, co_steward_for_session, is_live_session, is_co_steward_session,
  revoke_session, new_session,
}

-- No row of the table has this token.
abbrev pub IsFreshSession : ℕ → Store → Type 0
IsFreshSession h s = first (λ x. x.token_hash == h) s.sessions ≡ none

-- A link that was tried once, in time or too late, redeems nothing at any later time.
pub magic_link_single_use :
    (now later token_hash : ℕ) (s : Store)
    → now ≤ later
    → (consume_magic_link later token_hash (consume_magic_link now token_hash s).1).0 ≡ none
unfolding consume_magic_link
magic_link_single_use now later token_hash s h =
    ap (Option.map (λ (m : MagicLink). m.principal_id)) (
      first-update_gone (is_redeemable later token_hash) (is_redeemable now token_hash)
        (λ m. record m { consumed_at = some now }) s.magic_links (λ r q. ground arith)
        (λ r q. ground arith))

-- A session that a Co-Steward signs in to with a new token is accepted by `principal_for_session`
-- as one of the principal, until it runs out, and by `co_steward_for_session` as well.
pub co_steward_acts_as_principal :
    (now later co_steward_id principal_id token_hash ttl_hours : ℕ) (s : Store)
    → IsFreshSession token_hash s
    → later < now + ttl_hours * 3600
    → let s' = create_co_steward_session now co_steward_id principal_id token_hash ttl_hours s in
      (principal_for_session later token_hash s' ≡ some principal_id)
      × (co_steward_for_session later token_hash s' ≡ some (co_steward_id, principal_id))
unfolding principal_for_session co_steward_for_session create_co_steward_session
co_steward_acts_as_principal now later co_steward_id principal_id token_hash ttl_hours s fresh
      live =
    let row : Session =
      new_session now principal_id (some co_steward_id) co_steward token_hash ttl_hours in
    ground (
      arith,
      first-insert (is_live_session later token_hash) row s.sessions (
          first_narrow (λ x. x.token_hash == token_hash) (is_live_session later token_hash)
            s.sessions (λ r q. ground arith) fresh),
      first-insert (is_co_steward_session later token_hash) row s.sessions (
          first_narrow (λ x. x.token_hash == token_hash) (is_co_steward_session later token_hash)
            s.sessions (λ r q. ground arith) fresh),
    )

pub principal_for-create_session :
    (now later principal_id token_hash ttl_hours : ℕ) (s : Store)
    → IsFreshSession token_hash s
    → later < now + ttl_hours * 3600
    → principal_for_session later token_hash
        (create_session now principal_id token_hash ttl_hours s)
      ≡ some principal_id
unfolding principal_for_session create_session
principal_for-create_session now later principal_id token_hash ttl_hours s fresh live = ground (
  arith,
  first-insert (is_live_session later token_hash)
      (new_session now principal_id none principal token_hash ttl_hours) s.sessions
      (first_narrow (λ x. x.token_hash == token_hash) (is_live_session later token_hash) s.sessions
        (λ r q. ground arith) fresh),
)

-- After a sign-out the token opens nothing, as a principal or as a Co-Steward, at any time.
pub revoked_session_is_dead :
    (now later token_hash : ℕ) (s : Store)
    → let s' = revoke_session now token_hash s in
      (principal_for_session later token_hash s' ≡ none)
      × (co_steward_for_session later token_hash s' ≡ none)
unfolding principal_for_session co_steward_for_session revoke_session
revoked_session_is_dead now later token_hash s = ground (
  arith,
  first-update_gone (is_live_session later token_hash)
      (λ x. x.token_hash == token_hash && is_none x.revoked_at)
      (λ x. record x { revoked_at = some now }) s.sessions (λ r q. ground arith)
      (λ r q. ground arith),
  first-update_gone (is_co_steward_session later token_hash)
      (λ x. x.token_hash == token_hash && is_none x.revoked_at)
      (λ x. record x { revoked_at = some now }) s.sessions (λ r q. ground arith)
      (λ r q. ground arith),
)
