-- ===== src/Routes/Passkeys/SignIn.antt =====
-- crates/beacon-api/src/passkey.rs: what a sign-in with a passkey rests on.
use paschal.Base.{ℕ, none}
use paschal.Db.Tables.{Session, principal}
use paschal.App.World.{World}

-- The session of a principal.
abbrev pub session_until : ℕ → ℕ → ℕ → Session
session_until expires_at principal_id token_hash = record {
  token_hash = token_hash;
  principal_id = principal_id;
  co_steward_id = none;
  auth_role = principal;
  expires_at = expires_at;
  revoked_at = none;
}
