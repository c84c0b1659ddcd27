-- ===== src/Domain/SignalSource.antt =====
-- crates/beacon-core/src/lib.rs: `SignalSource` and its independence classes.
pub mod Codec
use paschal.Base.{ℕ, String, Bool, true, false, Result, ok, err, str_eq, if◌then◌else◌}
use paschal.Domain.Errors.{DomainError, unknown_enum_value}

pub data SignalSource : Type 0 where
  heartbeat apple_icloud_shortcut microsoft_account google_login buddy_attestation
        guardian_attestation cdr calendar email death_registry sentinel_offline :
      SignalSource

unfoldable pub as_db_str : SignalSource → String
as_db_str heartbeat = "HEARTBEAT"
as_db_str apple_icloud_shortcut = "APPLE_ICLOUD_SHORTCUT"
as_db_str microsoft_account = "MICROSOFT_ACCOUNT"
as_db_str google_login = "GOOGLE_LOGIN"
as_db_str buddy_attestation = "BUDDY_ATTESTATION"
as_db_str guardian_attestation = "GUARDIAN_ATTESTATION"
as_db_str cdr = "CDR_BANK_DORMANCY"
as_db_str calendar = "CALENDAR_INACTIVITY"
as_db_str email = "EMAIL_INACTIVITY"
as_db_str death_registry = "DEATH_REGISTRY"
as_db_str sentinel_offline = "SENTINEL_OFFLINE"

unfoldable pub from_db_str : String → Result DomainError SignalSource
from_db_str s =
    if str_eq s "HEARTBEAT"
    then ok heartbeat
    else if str_eq s "APPLE_ICLOUD_SHORTCUT"
    then ok apple_icloud_shortcut
    else if str_eq s "MICROSOFT_ACCOUNT"
    then ok microsoft_account
    else if str_eq s "GOOGLE_LOGIN"
    then ok google_login
    else if str_eq s "BUDDY_ATTESTATION"
    then ok buddy_attestation
    else if str_eq s "GUARDIAN_ATTESTATION"
    then ok guardian_attestation
    else if str_eq s "CDR_BANK_DORMANCY"
    then ok cdr
    else if str_eq s "CALENDAR_INACTIVITY"
    then ok calendar
    else if str_eq s "EMAIL_INACTIVITY"
    then ok email
    else if str_eq s "DEATH_REGISTRY"
    then ok death_registry
    else if str_eq s "SENTINEL_OFFLINE"
    then ok sentinel_offline
    else err (unknown_enum_value "SignalSource" s)

-- The derived `PartialEq`.
unfoldable pub eq : SignalSource → SignalSource → Bool
eq heartbeat heartbeat = true
eq apple_icloud_shortcut apple_icloud_shortcut = true
eq microsoft_account microsoft_account = true
eq google_login google_login = true
eq buddy_attestation buddy_attestation = true
eq guardian_attestation guardian_attestation = true
eq cdr cdr = true
eq calendar calendar = true
eq email email = true
eq death_registry death_registry = true
eq sentinel_offline sentinel_offline = true
eq _ _ = false

unfoldable pub independence_class : SignalSource → String
independence_class heartbeat = "personal_attestation"
independence_class cdr = "financial"
independence_class google_login = "social_google"
independence_class microsoft_account = "social_microsoft"
independence_class apple_icloud_shortcut = "social_apple"
independence_class calendar = "social_meta"
independence_class email = "social_meta"
independence_class buddy_attestation = "human_attestation"
independence_class guardian_attestation = "human_attestation"
independence_class death_registry = "official_record"
independence_class sentinel_offline = "infrastructure"

-- In hundredths.
unfoldable pub default_weight : SignalSource → ℕ
default_weight heartbeat = 30
default_weight cdr = 25
default_weight apple_icloud_shortcut = 18
default_weight google_login = 15
default_weight microsoft_account = 15
default_weight calendar = 10
default_weight email = 10
default_weight buddy_attestation = 20
default_weight guardian_attestation = 40
default_weight death_registry = 60
default_weight sentinel_offline = 5
