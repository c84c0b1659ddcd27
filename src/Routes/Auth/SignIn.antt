-- ===== src/Routes/Auth/SignIn.antt =====
-- The life of a session, from the magic link to the sign-out.
use paschal.Base.{ℕ, ◌+◌, ◌*◌, ◌<◌, ◌≡◌, refl, some, ok, err}
use paschal.Db.Tables.{Store, Principal}
use paschal.Db.Accounts.{fetch_principal, consume_magic_link, create_session}
use paschal.Db.Accounts.Sessions.{
  revoked_session_is_dead, IsFreshSession, principal_for-create_session,
}
use paschal.App.World.{World, Platform, unauthorised}
use paschal.Routes.Auth.{current_principal, magic_link_verify, signout}

module _ ⦃p : Platform⦄ where
  -- A magic link that can be redeemed, of a principal who has a row, signs the principal in with
  -- a new token, if no session has its hash yet: the token stands for the principal until thirty
  -- days are over, and for nobody once it is signed out.
  pub magic_link_signs_in :
      (now later token pid : ℕ) (w : World) (owner : Principal)
      → (consume_magic_link now (p.hash_token token) w.db).0 ≡ some pid
      → fetch_principal pid w.db ≡ ok owner
      → IsFreshSession (p.hash_token (p.random w.drawn)) w.db
      → later < now + 720 * 3600
      → let (r, w') = magic_link_verify now token w in
        let session = p.random w.drawn in
        (r ≡ ok (pid, session, owner.primary_email))
        × ((current_principal later (some session) w').0 ≡ ok pid)
        × ((current_principal later (some session) (signout now (some session) w').1).0
            ≡ err unauthorised)
  unfolding magic_link_verify current_principal signout consume_magic_link fetch_principal
  magic_link_signs_in now later token pid w owner h o fresh live =
      rw (h, o)
        (
          refl,
          rw (principal_for-create_session now later pid h' 720 redeemed fresh live) refl,
          rw (revoked_session_is_dead now later h' (create_session now pid h' 720 redeemed)).0 refl,
        )
    where
      h' : ℕ
      h' = p.hash_token (p.random w.drawn)

      redeemed : Store
      redeemed = (consume_magic_link now (p.hash_token token) w.db).1
