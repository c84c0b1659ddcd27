-- ===== src/Domain/VaultState.antt =====
-- crates/beacon-core/src/lib.rs: `VaultState` and its transition table.
pub mod Codec
pub mod Transitions
use paschal.Base.{String, Bool, true, false, Result, ok, err, str_eq, if◌then◌else◌}
use paschal.Domain.Errors.{DomainError, invalid_transition, unknown_enum_value}

pub data VaultState : Type 0 where
  active suspicious alert cooling_off releasing released archived : VaultState

unfoldable pub as_db_str : VaultState → String
as_db_str active = "ACTIVE"
as_db_str suspicious = "SUSPICIOUS"
as_db_str alert = "ALERT"
as_db_str cooling_off = "COOLING_OFF"
as_db_str releasing = "RELEASING"
as_db_str released = "RELEASED"
as_db_str archived = "ARCHIVED"

unfoldable pub from_db_str : String → Result DomainError VaultState
from_db_str s =
    if str_eq s "ACTIVE"
    then ok active
    else if str_eq s "SUSPICIOUS"
    then ok suspicious
    else if str_eq s "ALERT"
    then ok alert
    else if str_eq s "COOLING_OFF"
    then ok cooling_off
    else if str_eq s "RELEASING"
    then ok releasing
    else if str_eq s "RELEASED"
    then ok released
    else if str_eq s "ARCHIVED"
    then ok archived
    else err (unknown_enum_value "VaultState" s)

-- The derived `PartialEq`.
unfoldable pub eq : VaultState → VaultState → Bool
eq active active = true
eq suspicious suspicious = true
eq alert alert = true
eq cooling_off cooling_off = true
eq releasing releasing = true
eq released released = true
eq archived archived = true
eq _ _ = false

unfoldable pub can_transition : VaultState → VaultState → Bool
can_transition active suspicious = true
can_transition active cooling_off = true
can_transition suspicious active = true
can_transition suspicious alert = true
can_transition alert suspicious = true
can_transition alert cooling_off = true
can_transition cooling_off active = true
can_transition cooling_off releasing = true
can_transition releasing released = true
can_transition released archived = true
can_transition _ _ = false

unfoldable pub transition : VaultState → VaultState → Result DomainError VaultState
transition from to =
    if can_transition from to
    then ok to
    else err (invalid_transition (as_db_str from) (as_db_str to))
