-- ===== src/Routes/Auth.antt =====
-- crates/beacon-api/src/auth.rs, and the sign-in and sign-out of routes.rs. A request's bearer
-- token is a number, or is missing.
pub mod SignIn
use paschal.Base.{ℕ, ◌*◌, String, Option, none, some, Result}
use paschal.Db.Tables.{Store, Principal}
use paschal.Db.Accounts.{
  fetch_principal, principal_for_session, co_steward_for_session, consume_magic_link,
  create_session, revoke_session,
}
use paschal.App.World.{World, Platform, ApiError, unauthorised}
use paschal.App.Monad.{
  Api, require, ◌>>=◌, ◌>>◌, continue, pure, fail, ask, ask_result, exec, call, draw,
}

-- `bearer`
abbrev pub bearer : Option ℕ → Api ℕ
bearer headers = require unauthorised headers

module _ ⦃p : Platform⦄ where
  unfoldable pub current_principal : ℕ → Option ℕ → Api ℕ
  current_principal now headers = do
    token ← bearer headers
    found ← ask (principal_for_session now (p.hash_token token))
    require unauthorised found

  unfoldable pub current_co_steward : ℕ → Option ℕ → Api (ℕ × ℕ)
  current_co_steward now headers = do
    token ← bearer headers
    found ← ask (co_steward_for_session now (p.hash_token token))
    require unauthorised found

  -- The principal, the new session's token, and the address.
  unfoldable pub magic_link_verify : ℕ → ℕ → Api (ℕ × ℕ × String)
  magic_link_verify now token = do
    found ← call (consume_magic_link now (p.hash_token token))
    pid ← require unauthorised found
    owner ← ask_result (fetch_principal pid)
    session ← draw
    exec (create_session now pid (p.hash_token session) (24 * 30))
    pure (pid, session, owner.primary_email)

  unfoldable pub signout : ℕ → Option ℕ → Api (Unit {0})
  signout now none = pure tt
  signout now (some token) = exec (revoke_session now (p.hash_token token))
