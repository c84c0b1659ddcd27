-- ===== src/Domain/StorageRegion.antt =====
-- crates/beacon-core/src/lib.rs: `StorageRegion`, by its AWS code.
pub mod Codec
use paschal.Base.{String, Bool, true, false, Result, ok, err, str_eq, if◌then◌else◌}
use paschal.Domain.Errors.{DomainError, unknown_enum_value}

pub data StorageRegion : Type 0 where
  ap_southeast2 eu_central1 us_east1 : StorageRegion

unfoldable pub as_aws_str : StorageRegion → String
as_aws_str ap_southeast2 = "ap-southeast-2"
as_aws_str eu_central1 = "eu-central-1"
as_aws_str us_east1 = "us-east-1"

unfoldable pub from_aws_str : String → Result DomainError StorageRegion
from_aws_str s =
    if str_eq s "ap-southeast-2"
    then ok ap_southeast2
    else if str_eq s "eu-central-1"
    then ok eu_central1
    else if str_eq s "us-east-1"
    then ok us_east1
    else err (unknown_enum_value "StorageRegion" s)

-- The derived `PartialEq`.
unfoldable pub eq : StorageRegion → StorageRegion → Bool
eq ap_southeast2 ap_southeast2 = true
eq eu_central1 eu_central1 = true
eq us_east1 us_east1 = true
eq _ _ = false

-- `StorageRegion::default()`.
abbrev pub default : StorageRegion
default = ap_southeast2
