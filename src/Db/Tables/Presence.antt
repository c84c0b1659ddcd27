-- ===== src/Db/Tables/Presence.antt =====
-- crates/beacon-db/src/lib.rs: the rows of the signs of life, of the contacts of a vault and of the
-- webhooks. A REAL column holds the 32 bits of its number.
use paschal.Base.{ℕ, String, Bool, List, Option}
use paschal.Domain.SignalSource.{SignalSource}

pub record Heartbeat : Type 0 where
  pub principal_id : ℕ
  pub via : String
  pub received_at : ℕ

pub record SignalSubscription : Type 0 where
  pub id : ℕ
  pub vault_id : ℕ
  pub source : SignalSource
  pub weight : ℕ
  pub enabled : Bool

pub record Signal : Type 0 where
  pub id : ℕ
  pub vault_id : ℕ
  pub source : SignalSource
  pub observed_at : ℕ
  pub contribution : ℕ

pub record AppleShortcutSub : Type 0 where
  pub principal_id : ℕ
  pub installation_id : String
  pub secret_hmac_key : List ℕ
  pub last_ping_at : Option ℕ

pub record VaultContact : Type 0 where
  pub id : ℕ
  pub vault_id : ℕ
  pub display_name : String
  pub email : String
  pub birthday : Option ℕ
  pub release_note : Option String
  pub created_at : ℕ

pub record BankDormancy : Type 0 where
  pub id : ℕ
  pub principal_id : ℕ
  pub webhook_id : ℕ
  pub secret_hmac_key : List ℕ
  pub last_webhook_at : Option ℕ
  pub created_at : ℕ
