-- ===== src/Db/Tables.antt =====
-- crates/beacon-db/src/lib.rs and crates/beacon-core/src/lib.rs: the rows of the database and the
-- entities that the queries return. Ids, hashes and times (seconds) are numbers, texts are
-- `String`s, and an enum column holds the value whose text `as_db_str` gives.
pub mod Presence
pub mod Keys
use paschal.Base.{ℕ, String, Bool, List, Option, ℤ, ◌&&◌, is_some, is_none}
use paschal.Domain.Tier.{Tier}
use paschal.Domain.VaultState.{VaultState}
use paschal.Domain.SubscriptionState.{SubscriptionState}
use paschal.Domain.ReleaseMode.{ReleaseMode}
use paschal.Domain.BuddyResponse.{BuddyResponse}
use paschal.Domain.StorageRegion.{StorageRegion}
pub use Presence.{
  Heartbeat, SignalSubscription, Signal, AppleShortcutSub, VaultContact, BankDormancy,
}
pub use Keys.{
  WebauthnChallenge, Passkey, ZkEnvelope, ZkRecoveryEnvelope, Recovery, RecoveryKey, PrkEnvelope,
  HeirEnvelope,
}

pub data ReleaseReason : Type 0 where
  signal_trigger guardian_attestation drill manual_principal_release scheduled : ReleaseReason

pub record Principal : Type 0 where
  pub id : ℕ
  pub display_name : Option String
  pub primary_email : String
  pub tos_accepted_at : Option ℕ
  pub deletion_requested_at : Option ℕ
  pub deletion_scheduled_for : Option ℕ

pub record Subscription : Type 0 where
  pub principal_id : ℕ
  pub state : SubscriptionState
  pub started_at : ℕ
  pub trial_end_at : Option ℕ
  pub canceled_at : Option ℕ
  pub retention_until : Option ℕ
  pub extra_storage_bytes : ℤ

pub record Vault : Type 0 where
  pub id : ℕ
  pub principal_id : ℕ
  pub name : String
  pub tier : Tier
  pub state : VaultState
  pub cooling_off_seconds : ℤ
  pub storage_region : StorageRegion
  pub last_attestation_at : ℕ
  pub cooling_off_started_at : Option ℕ
  pub released_at : Option ℕ
  pub created_at : ℕ

pub record Letter : Type 0 where
  pub id : ℕ
  pub vault_id : ℕ
  pub kind : String
  pub title : String
  pub recipient_email : String
  pub ciphertext : List ℕ
  pub nonce : List ℕ
  pub drill_ciphertext : Option (List ℕ)
  pub drill_nonce : Option (List ℕ)
  pub scheduled_release_at : Option ℕ
  pub release_mode : ReleaseMode
  pub event_released_at : Option ℕ
  pub sealed_at : ℕ

pub record ReleaseEvent : Type 0 where
  pub id : ℕ
  pub vault_id : ℕ
  pub reason : ReleaseReason
  pub triggered_at : ℕ
  pub released_at : Option ℕ
  pub cancelled_at : Option ℕ
  pub is_drill : Bool
  pub cooling_off_ends_at : Option ℕ

pub record ReleaseClaim : Type 0 where
  pub token_hash : ℕ
  pub release_event_id : ℕ
  pub letter_id : ℕ
  pub recipient_email : String
  pub expires_at : ℕ
  pub claimed_at : Option ℕ

pub record Attachment : Type 0 where
  pub id : ℕ
  pub letter_id : ℕ
  pub original_filename : String
  pub transformed_size : ℕ
  pub storage_key : String
  pub nonce : List ℕ
  pub sealed_at : ℕ

pub record AttachmentClaim : Type 0 where
  pub token_hash : ℕ
  pub release_event_id : ℕ
  pub attachment_id : ℕ
  pub recipient_email : String
  pub expires_at : ℕ
  pub claimed_at : Option ℕ

pub record RecipientChange : Type 0 where
  pub id : ℕ
  pub letter_id : ℕ
  pub co_steward_id : ℕ
  pub old_email : String
  pub new_email : String
  pub requested_at : ℕ
  pub effective_at : ℕ
  pub applied_at : Option ℕ
  pub cancelled_at : Option ℕ

pub record CoSteward : Type 0 where
  pub id : ℕ
  pub principal_id : ℕ
  pub email : String
  pub confirmation_token_hash : Option ℕ
  pub passphrase_hash : Option ℕ
  pub passphrase_salt : Option ℕ
  pub confirmed_at : Option ℕ
  pub revoked_at : Option ℕ
  pub last_viewed_at : Option ℕ

-- The column `auth_role` of a session.
pub data AuthRole : Type 0 where
  principal co_steward : AuthRole

pub record Session : Type 0 where
  pub token_hash : ℕ
  pub principal_id : ℕ
  pub co_steward_id : Option ℕ
  pub auth_role : AuthRole
  pub expires_at : ℕ
  pub revoked_at : Option ℕ

pub record MagicLink : Type 0 where
  pub token_hash : ℕ
  pub principal_id : ℕ
  pub expires_at : ℕ
  pub consumed_at : Option ℕ

pub record DuressSignal : Type 0 where
  pub principal_id : ℕ
  pub webhook_id : ℕ
  pub alert_email : Option String
  pub armed_at : ℕ
  pub triggered_at : Option ℕ
  pub last_alert_at : Option ℕ
  pub panic_mode : String

pub record Buddy : Type 0 where
  pub id : ℕ
  pub principal_id : ℕ
  pub email : String
  pub prompt_cadence_days : ℕ
  pub confirmation_token_hash : Option ℕ
  pub last_response_at : Option ℕ
  pub last_response : Option BuddyResponse
  pub confirmed_at : Option ℕ
  pub revoked_at : Option ℕ

-- A line of the transparency log: its kind, and whom and what it is about.
pub record TransparencyEntry : Type 0 where
  pub kind : String
  pub principal_id : Option ℕ
  pub vault_id : Option ℕ

pub record Store : Type 0 where
  pub principals : List Principal
  pub subscriptions : List Subscription
  pub vaults : List Vault
  pub letters : List Letter
  pub release_events : List ReleaseEvent
  pub release_claims : List ReleaseClaim
  pub attachments : List Attachment
  pub attachment_claims : List AttachmentClaim
  pub recipient_changes : List RecipientChange
  pub co_stewards : List CoSteward
  pub sessions : List Session
  pub magic_links : List MagicLink
  pub duress_signals : List DuressSignal
  pub buddies : List Buddy
  pub transparency : List TransparencyEntry
  pub heartbeats : List Heartbeat
  pub signal_subscriptions : List SignalSubscription
  pub signals : List Signal
  pub apple_shortcut_subs : List AppleShortcutSub
  pub contacts : List VaultContact
  pub bank_dormancies : List BankDormancy
  pub webauthn_challenges : List WebauthnChallenge
  pub passkeys : List Passkey
  pub zk_envelopes : List ZkEnvelope
  pub zk_recovery_envelopes : List ZkRecoveryEnvelope
  pub recoveries : List Recovery
  pub recovery_keys : List RecoveryKey
  pub prk_envelopes : List PrkEnvelope
  pub heir_envelopes : List HeirEnvelope

pub data DbError : Type 0 where
  not_found : DbError
  -- `sqlx::Error::RowNotFound`, of a `fetch_one`.
  row_not_found : DbError
  -- A row that breaks a UNIQUE constraint: the statement changes nothing.
  unique_violation : DbError

-- `Buddy::is_active`.
unfoldable pub buddy_is_active : Buddy → Bool
buddy_is_active b = is_some b.confirmed_at && is_none b.revoked_at

-- `CoSteward::is_active`.
unfoldable pub co_steward_is_active : CoSteward → Bool
co_steward_is_active c = is_some c.confirmed_at && is_none c.revoked_at
