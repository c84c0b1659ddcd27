-- ===== src/Db/Envelopes/RoundTrip.antt =====
-- crates/beacon-db/src/lib.rs: what is read of the envelopes and keys after they were stored.
use paschal.Base.{ℕ, ◌≡◌, refl, ap, ◌∙◌, List, Option, none, some, ==_refl}
use mathlib.Core.Option
use paschal.Db.Sql.{first}
use paschal.Db.Sql.Upsert.{first-upsert}
use paschal.Db.Tables.{Store, RecoveryKey, PrkEnvelope, HeirEnvelope}
use paschal.Db.Envelopes.{
  key_of, prk_parts, upsert_principal_recovery_key, get_principal_recovery_key, prk_of,
  upsert_vault_prk_envelope, get_vault_prk_envelope, heir_of, upsert_zk_letter_heir_envelope,
  get_zk_letter_heir_envelope,
}

-- The recovery key of a principal is what was stored first: a later key is stored without an error
-- and has no effect.
pub recovery_key_is_fixed :
    (row : RecoveryKey) (s : Store)
    → get_principal_recovery_key row.principal_id (upsert_principal_recovery_key row s)
      ≡ some (elim (get_principal_recovery_key row.principal_id s) [ none ↦ row | some old ↦ old ])
unfolding upsert_principal_recovery_key get_principal_recovery_key
recovery_key_is_fixed row s =
    first-upsert (key_of row.principal_id) (λ k. k) row s.recovery_keys (==_refl row.principal_id)
      (λ k h. h)

-- The envelope of a letter for its heir is the one that was stored last, with all its parts.
pub heir_envelope_round_trip :
    (row : HeirEnvelope) (s : Store)
    → get_zk_letter_heir_envelope row.letter_id (upsert_zk_letter_heir_envelope row s) ≡ some row
unfolding upsert_zk_letter_heir_envelope get_zk_letter_heir_envelope
heir_envelope_round_trip row s =
    first-upsert (heir_of row.letter_id) (λ e. row) row s.heir_envelopes (==_refl row.letter_id)
      (λ e h. ==_refl row.letter_id)
    ∙ same (first (heir_of row.letter_id) s.heir_envelopes)
  where
    same : (o : Option HeirEnvelope) → some (elim o [ none ↦ row | some old ↦ row ]) ≡ some row
    same none = refl
    same (some old) = refl

-- So is the envelope of a vault's key under the recovery key.
pub prk_envelope_round_trip :
    (now vault_id principal_id : ℕ) (ciphertext nonce : List ℕ) (s : Store)
    → get_vault_prk_envelope vault_id
        (upsert_vault_prk_envelope now vault_id principal_id ciphertext nonce s)
      ≡ some (ciphertext, nonce)
unfolding upsert_vault_prk_envelope get_vault_prk_envelope
prk_envelope_round_trip now vault_id principal_id ciphertext nonce s =
    ap (Option.map prk_parts) (
      first-upsert (prk_of vault_id)
        (λ e. record e { ciphertext = ciphertext; nonce = nonce; created_at = now }) _
        s.prk_envelopes (==_refl vault_id) (λ e h. h))
    ∙ same (first (prk_of vault_id) s.prk_envelopes)
  where
    same :
        (o : Option PrkEnvelope)
        → Option.map prk_parts (
            some (elim o [
              | none ↦ record {
                vault_id = vault_id;
                principal_id = principal_id;
                ciphertext = ciphertext;
                nonce = nonce;
                created_at = now;
              }
              | some old ↦ record old { ciphertext = ciphertext; nonce = nonce; created_at = now }
            ]))
          ≡ some (ciphertext, nonce)
    same none = refl
    same (some old) = refl
