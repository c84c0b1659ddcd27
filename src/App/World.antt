-- ===== src/App/World.antt =====
-- crates/beacon-api/src/state.rs, metrics.rs, notifications.rs and errors.rs: the database, the
-- messages sent, the counters, the timers that were spawned, and what comes from outside.
use paschal.Base.{ℕ, ◌+◌, ◌%◌, ◌^◌, String, Bool, List}
use paschal.Db.Tables.{Store}

-- The text of a message is left out: which message it is, and to whom.
pub data Template : Type 0 where
  cooling_off_started cooling_off_cancelled release_notification : Template
  recipient_change_requested account_deletion_requested duress_alert magic_link : Template
  welcome buddy_invite co_steward_invite heir_share : Template

pub record Message : Type 0 where
  pub template : Template
  pub to : String

-- The counters (u64) that the modelled code increments.
pub record Metrics : Type 0 where
  pub releases_started_total : ℕ
  pub releases_completed_total : ℕ
  pub drills_completed_total : ℕ
  pub letters_sealed_total : ℕ
  pub vaults_created_total : ℕ
  pub buddy_responses_total : ℕ
  pub signups_total : ℕ
  pub heartbeats_total : ℕ
  pub apple_pings_total : ℕ
  pub attachments_sealed_total : ℕ
  pub attachments_bytes_total : ℕ

-- `fetch_add(1)` wraps.
abbrev pub inc : ℕ → ℕ
inc n = (n + 1) % 2 ^ 64

-- A task of `spawn_release_elapse` that sleeps until `fires_at`.
pub record Timer : Type 0 where
  pub vault_id : ℕ
  pub release_event_id : ℕ
  pub fires_at : ℕ
  pub is_drill : Bool

pub record World : Type 0 where
  pub db : Store
  pub outbox : List Message
  pub metrics : Metrics
  pub timers : List Timer
  -- How many random numbers (ids of rows, tokens) have been drawn.
  pub drawn : ℕ

-- What is not under the repository: the source of random ids and tokens, as the n-th number drawn,
-- SHA-256 on tokens and on a passphrase with its salt, and Unicode's tables of letters.
pub record Platform : Type 0 where
  pub random : ℕ → ℕ
  pub hash_token : ℕ → ℕ
  pub hash_passphrase : String → ℕ → ℕ
  pub to_uppercase : String → String

pub data ApiError : Type 0 where
  bad_request unauthorised not_found conflict forbidden internal : ApiError
