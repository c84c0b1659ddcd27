-- ===== src/Db/Passkeys.antt =====
-- crates/beacon-db/src/lib.rs: the queries on WebAuthn challenges and passkeys.
pub mod Ceremonies
use paschal.Base.{
  ℕ, ◌+◌, ◌*◌, String, Bool, not, ◌&&◌, List, [], ◌∷◌, Option, none, some, Result, ok, err, ltb,
  leb, length, ◌==◌, str_eq,
}
use mathlib.Core.Option
use paschal.Db.Sql.{select, update, delete, affected, first, insert, order_by}
use paschal.Db.Tables.{Store, WebauthnChallenge, Passkey, DbError, unique_violation}

-- The column's default: `now() + INTERVAL '5 minutes'`.
unfoldable pub create_webauthn_challenge : ℕ → ℕ → Option ℕ → String → String → Store → ℕ × Store
create_webauthn_challenge new_id now principal_id state_json ceremony s =
    (new_id, record s { webauthn_challenges = insert row s.webauthn_challenges })
  where
    row : WebauthnChallenge
    row = record {
      id = new_id;
      principal_id = principal_id;
      state_json = state_json;
      ceremony = ceremony;
      expires_at = now + 5 * 60;
    }

-- WHERE id = $1 AND ceremony = $2 AND expires_at > now()
abbrev pub is_consumable : ℕ → ℕ → String → WebauthnChallenge → Bool
is_consumable now challenge_id ceremony c =
    c.id == challenge_id && (str_eq c.ceremony ceremony && ltb now c.expires_at)

unfoldable pub consume_webauthn_challenge :
    ℕ → ℕ → String → Store → Option (String × Option ℕ) × Store
consume_webauthn_challenge now challenge_id ceremony s = (
  Option.map (λ c. (c.state_json, c.principal_id))
      (first (is_consumable now challenge_id ceremony) s.webauthn_challenges),
  record s {
    webauthn_challenges = delete (is_consumable now challenge_id ceremony) s.webauthn_challenges;
  },
)

unfoldable pub expire_webauthn_challenges : ℕ → Store → ℕ × Store
expire_webauthn_challenges now s = (
  affected (λ c. leb c.expires_at now) s.webauthn_challenges,
  record s { webauthn_challenges = delete (λ c. leb c.expires_at now) s.webauthn_challenges },
)

abbrev pub by_credential : ℕ → Passkey → Bool
by_credential credential_id k = k.credential_id == credential_id

-- UNIQUE (credential_id)
unfoldable pub store_passkey :
    ℕ → ℕ → ℕ → ℕ → String → Bool → List String → String → Store → Result DbError ℕ × Store
store_passkey new_id now principal_id credential_id passkey_json backed_up transports name s =
    elim (first (by_credential credential_id) s.passkeys) [
      | some old ↦ (err unique_violation, s)
      | none ↦ (ok new_id, record s { passkeys = insert row s.passkeys })
    ]
  where
    row : Passkey
    row = record {
      id = new_id;
      principal_id = principal_id;
      credential_id = credential_id;
      passkey_json = passkey_json;
      backed_up = backed_up;
      transports = transports;
      name = name;
      created_at = now;
      last_used_at = none;
    }

abbrev pub passkey_of : ℕ → Passkey → Bool
passkey_of principal_id k = k.principal_id == principal_id

unfoldable pub list_passkeys_for_principal : ℕ → Store → List Passkey
list_passkeys_for_principal principal_id s =
    order_by (λ k. k.created_at) (select (passkey_of principal_id) s.passkeys)

unfoldable pub get_passkey_by_credential_id : ℕ → Store → Option Passkey
get_passkey_by_credential_id credential_id s = first (by_credential credential_id) s.passkeys

unfoldable pub get_passkeys_for_authentication : ℕ → Store → List Passkey
get_passkeys_for_authentication principal_id s =
    order_by (λ k. k.created_at) (select (passkey_of principal_id) s.passkeys)

unfoldable pub update_passkey_after_auth : ℕ → String → ℕ → Store → Store
update_passkey_after_auth passkey_id passkey_json last_used_at s = record s {
  passkeys =
      update (λ k. k.id == passkey_id)
        (λ k. record k { passkey_json = passkey_json; last_used_at = some last_used_at })
        s.passkeys;
}

-- WHERE id = $1 AND principal_id = $2
abbrev pub own_passkey : ℕ → ℕ → Passkey → Bool
own_passkey passkey_id principal_id k = k.id == passkey_id && k.principal_id == principal_id

-- The foreign key of `zk_key_envelope` deletes the envelopes of the rows that are deleted.
unfoldable pub delete_passkey : ℕ → ℕ → Store → Bool × Store
delete_passkey passkey_id principal_id s =
    let removed = ltb 0 (affected (own_passkey passkey_id principal_id) s.passkeys) in
    (
      removed,
      record s {
        passkeys = delete (own_passkey passkey_id principal_id) s.passkeys;
        zk_envelopes = delete (λ e. removed && (e.passkey_id == passkey_id)) s.zk_envelopes;
      },
    )

unfoldable pub count_passkeys_for_principal : ℕ → Store → ℕ
count_passkeys_for_principal principal_id s = length (select (passkey_of principal_id) s.passkeys)
