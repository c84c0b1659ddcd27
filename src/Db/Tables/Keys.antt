-- ===== src/Db/Tables/Keys.antt =====
-- crates/beacon-db/src/lib.rs: the rows of passkeys and of the envelopes of zero-knowledge vaults.
use paschal.Base.{ℕ, String, Bool, List, Option}

pub record WebauthnChallenge : Type 0 where
  pub id : ℕ
  pub principal_id : Option ℕ
  pub state_json : String
  pub ceremony : String
  pub expires_at : ℕ

pub record Passkey : Type 0 where
  pub id : ℕ
  pub principal_id : ℕ
  pub credential_id : ℕ
  pub passkey_json : String
  pub backed_up : Bool
  pub transports : List String
  pub name : String
  pub created_at : ℕ
  pub last_used_at : Option ℕ

pub record ZkEnvelope : Type 0 where
  pub id : ℕ
  pub vault_id : ℕ
  pub passkey_id : ℕ
  pub ciphertext : List ℕ
  pub nonce : List ℕ
  pub created_at : ℕ

pub record ZkRecoveryEnvelope : Type 0 where
  pub id : ℕ
  pub vault_id : ℕ
  pub principal_id : ℕ
  pub code_salt : List ℕ
  pub ciphertext : List ℕ
  pub nonce : List ℕ
  pub created_at : ℕ

pub record Recovery : Type 0 where
  pub principal_id : ℕ
  pub code_salt : List ℕ
  pub code_verifier : List ℕ
  pub created_at : ℕ

pub record RecoveryKey : Type 0 where
  pub principal_id : ℕ
  pub code_salt : List ℕ
  pub prk_code_ct : List ℕ
  pub prk_code_nonce : List ℕ
  pub prk_prf_ct : List ℕ
  pub prk_prf_nonce : List ℕ

pub record PrkEnvelope : Type 0 where
  pub vault_id : ℕ
  pub principal_id : ℕ
  pub ciphertext : List ℕ
  pub nonce : List ℕ
  pub created_at : ℕ

pub record HeirEnvelope : Type 0 where
  pub letter_id : ℕ
  pub ciphertext : List ℕ
  pub nonce : List ℕ
  pub mode : String
  pub salt : Option (List ℕ)
  pub release_secret : Option (List ℕ)
  pub created_at : ℕ
