-- ===== src/Routes/Recovery.antt =====
-- crates/beacon-api/src/passkey.rs: recovery codes, recovery keys, and the envelopes of
-- zero-knowledge vaults. Bytes of a request are given after their decoding, none where it fails,
-- and bytes of an answer before their encoding.
pub mod Redeem
use paschal.Base.{
  ℕ, String, Bool, true, false, List, [], ◌∷◌, Option, none, some, Result, ok, err, ◌++◌,
}
use mathlib.Core.Option
use paschal.Base.Bytes.{Bytes, bytes_eq}
use paschal.Domain.Tier
use paschal.Domain.Tier.{Tier, zero_knowledge, honest_operator}
use paschal.Db.Tables as Rows
use paschal.Db.Tables.{Store, Vault, Letter, RecoveryKey, ZkEnvelope}
use paschal.Db.Vaults.{list_vaults}
use paschal.Db.Letters.{list_letters, fetch_letter}
use paschal.Db.Envelopes as Envelopes
use paschal.Db.Envelopes.{
  upsert_zk_envelope, get_zk_envelopes_for_vault, upsert_zk_recovery_envelope,
  get_principal_recovery_by_email, get_principal_recovery_key_by_email,
  upsert_principal_recovery_key, get_principal_recovery_key, upsert_vault_prk_envelope,
}
use paschal.App.World.{World, Platform, bad_request, not_found}
use paschal.App.Monad.{
  Api, ◌>>=◌, ◌>>◌, continue, pure, ensure, require, ask, ask_result, exec, draw,
}
use paschal.Routes.Auth.{current_principal}
use paschal.Routes.Vaults.{owned_vault}
use paschal.Routes.Passkeys.{Codes}

pub record RecoveryLetterView : Type 0 where
  pub id : ℕ
  pub title : String
  pub recipient_email : String
  pub ciphertext : List ℕ
  pub nonce : List ℕ

pub record RecoveryVaultView : Type 0 where
  pub vault_id : ℕ
  pub name : String
  pub dek_prk_ct : List ℕ
  pub dek_prk_nonce : List ℕ
  pub letters : List RecoveryLetterView

pub record RecoveryRedeemResp : Type 0 where
  pub code_salt : List ℕ
  pub prk_code_ct : List ℕ
  pub prk_code_nonce : List ℕ
  pub vaults : List RecoveryVaultView

-- The letter's row by id, left out where it holds no ciphertext.
abbrev pub letter_view : Letter → List ℕ → List RecoveryLetterView → List RecoveryLetterView
letter_view full [] letters = letters
letter_view full (c ∷ cs) letters =
    record {
      id = full.id;
      title = full.title;
      recipient_email = full.recipient_email;
      ciphertext = c ∷ cs;
      nonce = full.nonce;
    }
    ∷ letters

-- The inner loop.
unfoldable pub letters_of : List Letter → Api (List RecoveryLetterView)
letters_of [] = pure []
letters_of (lm ∷ lms) = do
  full ← ask_result (fetch_letter lm.id)
  letters ← letters_of lms
  pure (letter_view full full.ciphertext letters)

abbrev pub vault_view : Vault → List RecoveryLetterView → List ℕ × List ℕ → RecoveryVaultView
vault_view vault letters (dek_ct, dek_nonce) = record {
  vault_id = vault.id;
  name = vault.name;
  dek_prk_ct = dek_ct;
  dek_prk_nonce = dek_nonce;
  letters = letters;
}

-- What one vault adds: nothing unless it is zero-knowledge and has a recovery envelope.
unfoldable pub open_vault : Tier → Vault → Option (List ℕ × List ℕ) → Api (List RecoveryVaultView)
unfolding letters_of
open_vault honest_operator vault found = pure []
open_vault zero_knowledge vault none = pure []
open_vault zero_knowledge vault (some envelope) = do
  listed ← ask (list_letters vault.id)
  letters ← letters_of listed
  pure (vault_view vault letters envelope ∷ [])

-- The outer loop.
unfoldable pub vaults_of : List Vault → Api (List RecoveryVaultView)
unfolding open_vault
vaults_of [] = pure []
vaults_of (vault ∷ vaults) = do
  found ← ask (Envelopes.get_vault_prk_envelope vault.id)
  view ← open_vault vault.tier vault found
  views ← vaults_of vaults
  pure (view ++ views)

module _ ⦃c : Codes⦄ where
  -- The recovery row of an address, and that the code is right.
  unfoldable pub check_code : String → Bytes → Api (ℕ × Rows.Recovery)
  check_code email code = do
    found ← ask (get_principal_recovery_by_email email)
    (pid, recovery) ← require bad_request found
    ensure (bytes_eq (c.hmac recovery.code_salt code) recovery.code_verifier) bad_request
    pure (pid, recovery)

  unfoldable pub passkey_recovery_validate : String → Bytes → Api (List ℕ)
  unfolding check_code
  passkey_recovery_validate email code = do
    (pid, recovery) ← check_code email code
    pure recovery.code_salt

  unfoldable pub recovery_redeem : String → Bytes → Api RecoveryRedeemResp
  unfolding check_code vaults_of
  recovery_redeem email code = do
    (pid, recovery) ← check_code email code
    found ← ask (get_principal_recovery_key_by_email email)
    prk ← require bad_request found
    owned ← ask (list_vaults pid)
    vaults ← vaults_of owned
    pure (record {
      code_salt = prk.code_salt;
      prk_code_ct = prk.prk_code_ct;
      prk_code_nonce = prk.prk_code_nonce;
      vaults = vaults;
    })

module _ ⦃p : Platform⦄ where
  unfoldable pub store_recovery_key :
      ℕ
      → Option ℕ
      → Option Bytes
      → Option Bytes
      → Option Bytes
      → Option Bytes
      → Option Bytes
      → Api (Unit {0})
  store_recovery_key now headers code_salt prk_code_ct prk_code_nonce prk_prf_ct prk_prf_nonce = do
    pid ← current_principal now headers
    salt ← require bad_request code_salt
    code_ct ← require bad_request prk_code_ct
    code_nonce ← require bad_request prk_code_nonce
    prf_ct ← require bad_request prk_prf_ct
    prf_nonce ← require bad_request prk_prf_nonce
    exec (
        upsert_principal_recovery_key (record {
          principal_id = pid;
          code_salt = salt;
          prk_code_ct = code_ct;
          prk_code_nonce = code_nonce;
          prk_prf_ct = prf_ct;
          prk_prf_nonce = prf_nonce;
        }))

  -- The wraps under the passkey, none if no key is configured.
  unfoldable pub get_recovery_key : ℕ → Option ℕ → Api (Option (List ℕ × List ℕ))
  get_recovery_key now headers = do
    pid ← current_principal now headers
    row ← ask (get_principal_recovery_key pid)
    pure (Option.map (λ r. (r.prk_prf_ct, r.prk_prf_nonce)) row)

  unfoldable pub store_vault_prk_envelope :
      ℕ → Option ℕ → ℕ → Option Bytes → Option Bytes → Api (Unit {0})
  unfolding owned_vault
  store_vault_prk_envelope now headers vault_id ciphertext nonce = do
    (pid, vault) ← owned_vault now headers vault_id
    ct ← require bad_request ciphertext
    n ← require bad_request nonce
    exec (upsert_vault_prk_envelope now vault_id pid ct n)

  unfoldable pub get_vault_prk_envelope : ℕ → Option ℕ → ℕ → Api (List ℕ × List ℕ)
  unfolding owned_vault
  get_vault_prk_envelope now headers vault_id = do
    (pid, vault) ← owned_vault now headers vault_id
    found ← ask (Envelopes.get_vault_prk_envelope vault_id)
    require not_found found

  -- The three recovery fields, stored where all are given.
  unfoldable pub store_recovery_envelope :
      ℕ
      → ℕ
      → ℕ
      → Option (Option Bytes)
      → Option (Option Bytes)
      → Option (Option Bytes)
      → Api (Unit {0})
  store_recovery_envelope now vault_id pid (some rc) (some rn) (some rs) = do
    rc_bytes ← require bad_request rc
    rn_bytes ← require bad_request rn
    rs_bytes ← require bad_request rs
    id ← draw
    exec (upsert_zk_recovery_envelope id now vault_id pid rs_bytes rc_bytes rn_bytes)
  store_recovery_envelope now vault_id pid rc rn rs = pure tt

  unfoldable pub store_zk_envelope :
      ℕ
      → Option ℕ
      → ℕ
      → ℕ
      → Option Bytes
      → Option Bytes
      → Option (Option Bytes)
      → Option (Option Bytes)
      → Option (Option Bytes)
      → Api (Unit {0})
  unfolding owned_vault store_recovery_envelope
  store_zk_envelope now headers vault_id passkey_id ciphertext nonce rc rn rs = do
    (pid, vault) ← owned_vault now headers vault_id
    ct ← require bad_request ciphertext
    n ← require bad_request nonce
    id ← draw
    exec (upsert_zk_envelope id now vault_id passkey_id ct n)
    store_recovery_envelope now vault_id pid rc rn rs

  unfoldable pub get_zk_envelopes : ℕ → Option ℕ → ℕ → Api (List ZkEnvelope)
  unfolding owned_vault
  get_zk_envelopes now headers vault_id = do
    (pid, vault) ← owned_vault now headers vault_id
    ask (get_zk_envelopes_for_vault vault_id)
