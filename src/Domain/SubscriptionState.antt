-- ===== src/Domain/SubscriptionState.antt =====
-- crates/beacon-core/src/lib.rs: `SubscriptionState` and what each state permits.
pub mod Codec
use paschal.Base.{String, Bool, true, false, Result, ok, err, str_eq, if◌then◌else◌}
use paschal.Domain.Errors.{DomainError, unknown_enum_value}

pub data SubscriptionState : Type 0 where
  trialing active past_due canceled expired deleted : SubscriptionState

unfoldable pub as_db_str : SubscriptionState → String
as_db_str trialing = "TRIALING"
as_db_str active = "ACTIVE"
as_db_str past_due = "PAST_DUE"
as_db_str canceled = "CANCELED"
as_db_str expired = "EXPIRED"
as_db_str deleted = "DELETED"

unfoldable pub from_db_str : String → Result DomainError SubscriptionState
from_db_str s =
    if str_eq s "TRIALING"
    then ok trialing
    else if str_eq s "ACTIVE"
    then ok active
    else if str_eq s "PAST_DUE"
    then ok past_due
    else if str_eq s "CANCELED"
    then ok canceled
    else if str_eq s "EXPIRED"
    then ok expired
    else if str_eq s "DELETED"
    then ok deleted
    else err (unknown_enum_value "SubscriptionState" s)

-- The derived `PartialEq`.
unfoldable pub eq : SubscriptionState → SubscriptionState → Bool
eq trialing trialing = true
eq active active = true
eq past_due past_due = true
eq canceled canceled = true
eq expired expired = true
eq deleted deleted = true
eq _ _ = false

unfoldable pub allows_authoring : SubscriptionState → Bool
allows_authoring trialing = true
allows_authoring active = true
allows_authoring past_due = true
allows_authoring _ = false

unfoldable pub allows_release : SubscriptionState → Bool
allows_release trialing = true
allows_release active = true
allows_release past_due = true
allows_release canceled = true
allows_release _ = false
