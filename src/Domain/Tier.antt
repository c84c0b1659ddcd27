-- ===== src/Domain/Tier.antt =====
-- crates/beacon-core/src/lib.rs: `Tier`, who can read a vault.
pub mod Codec
use paschal.Base.{String, Bool, true, false, Result, ok, err, str_eq, if◌then◌else◌}
use paschal.Domain.Errors.{DomainError, unknown_enum_value}

pub data Tier : Type 0 where
  honest_operator zero_knowledge : Tier

unfoldable pub as_db_str : Tier → String
as_db_str honest_operator = "HONEST_OPERATOR"
as_db_str zero_knowledge = "ZERO_KNOWLEDGE"

unfoldable pub from_db_str : String → Result DomainError Tier
from_db_str s =
    if str_eq s "HONEST_OPERATOR"
    then ok honest_operator
    else if str_eq s "ZERO_KNOWLEDGE"
    then ok zero_knowledge
    else err (unknown_enum_value "Tier" s)

-- The derived `PartialEq`.
unfoldable pub eq : Tier → Tier → Bool
eq honest_operator honest_operator = true
eq zero_knowledge zero_knowledge = true
eq _ _ = false
