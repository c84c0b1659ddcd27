-- ===== src/Domain/BuddyResponse.antt =====
-- crates/beacon-core/src/lib.rs: `BuddyResponse`.
pub mod Codec
use paschal.Base.{ℕ, String, Bool, true, false, Result, ok, err, str_eq, if◌then◌else◌}
use paschal.Domain.Errors.{DomainError, unknown_enum_value}

pub data BuddyResponse : Type 0 where
  well worried unable_to_reach : BuddyResponse

unfoldable pub as_db_str : BuddyResponse → String
as_db_str well = "WELL"
as_db_str worried = "WORRIED"
as_db_str unable_to_reach = "UNABLE_TO_REACH"

unfoldable pub from_db_str : String → Result DomainError BuddyResponse
from_db_str s =
    if str_eq s "WELL"
    then ok well
    else if str_eq s "WORRIED"
    then ok worried
    else if str_eq s "UNABLE_TO_REACH"
    then ok unable_to_reach
    else err (unknown_enum_value "BuddyResponse" s)

-- The derived `PartialEq`.
unfoldable pub eq : BuddyResponse → BuddyResponse → Bool
eq well well = true
eq worried worried = true
eq unable_to_reach unable_to_reach = true
eq _ _ = false

-- In hundredths.
unfoldable pub release_contribution : BuddyResponse → ℕ
release_contribution well = 0
release_contribution worried = 20
release_contribution unable_to_reach = 35
