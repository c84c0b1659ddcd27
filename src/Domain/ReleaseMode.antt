-- ===== src/Domain/ReleaseMode.antt =====
-- crates/beacon-core/src/lib.rs: `ReleaseMode`, what makes a letter fire.
pub mod Codec
use paschal.Base.{String, Bool, true, false, Result, ok, err, str_eq, if◌then◌else◌}
use paschal.Domain.Errors.{DomainError, unknown_enum_value}

pub data ReleaseMode : Type 0 where
  signal_or_scheduled scheduled_only signal_only event_on_demand : ReleaseMode

unfoldable pub as_db_str : ReleaseMode → String
as_db_str signal_or_scheduled = "SIGNAL_OR_SCHEDULED"
as_db_str scheduled_only = "SCHEDULED_ONLY"
as_db_str signal_only = "SIGNAL_ONLY"
as_db_str event_on_demand = "EVENT_ON_DEMAND"

unfoldable pub from_db_str : String → Result DomainError ReleaseMode
from_db_str s =
    if str_eq s "SIGNAL_OR_SCHEDULED"
    then ok signal_or_scheduled
    else if str_eq s "SCHEDULED_ONLY"
    then ok scheduled_only
    else if str_eq s "SIGNAL_ONLY"
    then ok signal_only
    else if str_eq s "EVENT_ON_DEMAND"
    then ok event_on_demand
    else err (unknown_enum_value "ReleaseMode" s)

-- The derived `PartialEq`.
unfoldable pub eq : ReleaseMode → ReleaseMode → Bool
eq signal_or_scheduled signal_or_scheduled = true
eq scheduled_only scheduled_only = true
eq signal_only signal_only = true
eq event_on_demand event_on_demand = true
eq _ _ = false

unfoldable pub fires_on_signal : ReleaseMode → Bool
fires_on_signal signal_or_scheduled = true
fires_on_signal signal_only = true
fires_on_signal _ = false

unfoldable pub fires_on_schedule : ReleaseMode → Bool
fires_on_schedule signal_or_scheduled = true
fires_on_schedule scheduled_only = true
fires_on_schedule _ = false

unfoldable pub is_event_on_demand : ReleaseMode → Bool
is_event_on_demand event_on_demand = true
is_event_on_demand _ = false
