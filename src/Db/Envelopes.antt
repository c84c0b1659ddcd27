-- ===== src/Db/Envelopes.antt =====
-- crates/beacon-db/src/lib.rs: the envelopes of zero-knowledge vaults and letters, and the
-- recovery codes and keys. All they hold is ciphertext made in the browser.
pub mod RoundTrip
use paschal.Base.{ℕ, String, Bool, ◌&&◌, List, [], ◌∷◌, Option, none, some, any, ◌==◌, str_eq}
use mathlib.Core.Option
use paschal.Db.Sql.{select, first, upsert}
use paschal.Db.Tables
use paschal.Db.Tables.{
  Store, Principal, ZkEnvelope, ZkRecoveryEnvelope, RecoveryKey, PrkEnvelope, HeirEnvelope,
}

unfoldable pub upsert_zk_envelope : ℕ → ℕ → ℕ → ℕ → List ℕ → List ℕ → Store → Store
upsert_zk_envelope new_id now vault_id passkey_id ciphertext nonce s = record s {
  zk_envelopes =
      upsert (λ e. (e.vault_id == vault_id) && (e.passkey_id == passkey_id))
        (λ e. record e { ciphertext = ciphertext; nonce = nonce }) row s.zk_envelopes;
}
  where
    row : ZkEnvelope
    row = record {
      id = new_id;
      vault_id = vault_id;
      passkey_id = passkey_id;
      ciphertext = ciphertext;
      nonce = nonce;
      created_at = now;
    }

unfoldable pub get_zk_envelopes_for_vault : ℕ → Store → List ZkEnvelope
get_zk_envelopes_for_vault vault_id s = select (λ e. e.vault_id == vault_id) s.zk_envelopes

unfoldable pub upsert_zk_recovery_envelope :
    ℕ → ℕ → ℕ → ℕ → List ℕ → List ℕ → List ℕ → Store → Store
upsert_zk_recovery_envelope new_id now vault_id principal_id code_salt ciphertext nonce s =
    record s {
      zk_recovery_envelopes =
          upsert (λ e. (e.vault_id == vault_id) && (e.principal_id == principal_id))
            (λ e. record e { code_salt = code_salt; ciphertext = ciphertext; nonce = nonce }) row
            s.zk_recovery_envelopes;
    }
  where
    row : ZkRecoveryEnvelope
    row = record {
      id = new_id;
      vault_id = vault_id;
      principal_id = principal_id;
      code_salt = code_salt;
      ciphertext = ciphertext;
      nonce = nonce;
      created_at = now;
    }

unfoldable pub get_zk_recovery_envelope : ℕ → Store → Option ZkRecoveryEnvelope
get_zk_recovery_envelope vault_id s = first (λ e. e.vault_id == vault_id) s.zk_recovery_envelopes

abbrev pub recovery_of : ℕ → Tables.Recovery → Bool
recovery_of principal_id r = r.principal_id == principal_id

unfoldable pub upsert_principal_recovery : ℕ → ℕ → List ℕ → List ℕ → Store → Store
upsert_principal_recovery now principal_id code_salt code_verifier s = record s {
  recoveries =
      upsert (recovery_of principal_id)
        (λ r. record r { code_salt = code_salt; code_verifier = code_verifier; created_at = now })
        row s.recoveries;
}
  where
    row : Tables.Recovery
    row = record {
      principal_id = principal_id;
      code_salt = code_salt;
      code_verifier = code_verifier;
      created_at = now;
    }

unfoldable pub get_principal_recovery : ℕ → Store → Option Tables.Recovery
get_principal_recovery principal_id s = first (recovery_of principal_id) s.recoveries

-- JOIN principal p ON p.id = … WHERE p.primary_email = $1
abbrev pub has_email : ℕ → String → List Principal → Bool
has_email principal_id email principals =
    any (λ p. (p.id == principal_id) && str_eq p.primary_email email) principals

unfoldable pub get_principal_recovery_by_email : String → Store → Option (ℕ × Tables.Recovery)
get_principal_recovery_by_email email s =
    Option.map (λ r. (r.principal_id, r))
      (first (λ r. has_email r.principal_id email s.principals) s.recoveries)

abbrev pub key_of : ℕ → RecoveryKey → Bool
key_of principal_id k = k.principal_id == principal_id

-- ON CONFLICT (principal_id) DO NOTHING
unfoldable pub upsert_principal_recovery_key : RecoveryKey → Store → Store
upsert_principal_recovery_key row s = record s {
  recovery_keys = upsert (key_of row.principal_id) (λ k. k) row s.recovery_keys;
}

unfoldable pub get_principal_recovery_key : ℕ → Store → Option RecoveryKey
get_principal_recovery_key principal_id s = first (key_of principal_id) s.recovery_keys

unfoldable pub get_principal_recovery_key_by_email : String → Store → Option RecoveryKey
get_principal_recovery_key_by_email email s =
    first (λ k. has_email k.principal_id email s.principals) s.recovery_keys

abbrev pub prk_of : ℕ → PrkEnvelope → Bool
prk_of vault_id e = e.vault_id == vault_id

unfoldable pub upsert_vault_prk_envelope : ℕ → ℕ → ℕ → List ℕ → List ℕ → Store → Store
upsert_vault_prk_envelope now vault_id principal_id ciphertext nonce s = record s {
  prk_envelopes =
      upsert (prk_of vault_id)
        (λ e. record e { ciphertext = ciphertext; nonce = nonce; created_at = now }) row
        s.prk_envelopes;
}
  where
    row : PrkEnvelope
    row = record {
      vault_id = vault_id;
      principal_id = principal_id;
      ciphertext = ciphertext;
      nonce = nonce;
      created_at = now;
    }

abbrev pub prk_parts : PrkEnvelope → List ℕ × List ℕ
prk_parts e = (e.ciphertext, e.nonce)

unfoldable pub get_vault_prk_envelope : ℕ → Store → Option (List ℕ × List ℕ)
get_vault_prk_envelope vault_id s = Option.map prk_parts (first (prk_of vault_id) s.prk_envelopes)

abbrev pub heir_of : ℕ → HeirEnvelope → Bool
heir_of letter_id e = e.letter_id == letter_id

-- ON CONFLICT (letter_id) DO UPDATE: every column but the key is the new row's.
unfoldable pub upsert_zk_letter_heir_envelope : HeirEnvelope → Store → Store
upsert_zk_letter_heir_envelope row s = record s {
  heir_envelopes = upsert (heir_of row.letter_id) (λ e. row) row s.heir_envelopes;
}

unfoldable pub get_zk_letter_heir_envelope : ℕ → Store → Option HeirEnvelope
get_zk_letter_heir_envelope letter_id s = first (heir_of letter_id) s.heir_envelopes
