-- ===== src/Domain/StorageRegion/Codec.antt =====
-- The texts of `StorageRegion` in the database, and that `eq` decides equality.
use paschal.Base.{String, ◌≡◌, refl, true, ok, arith, eq_iff}
use paschal.Domain.StorageRegion.{
  StorageRegion, ap_southeast2, eu_central1, us_east1, as_aws_str, from_aws_str, eq,
}

-- What is written is read back as the same value.
pub from_aws_str-as_aws_str : (v : StorageRegion) → from_aws_str (as_aws_str v) ≡ ok v
unfolding from_aws_str as_aws_str
from_aws_str-as_aws_str ap_southeast2 = refl
from_aws_str-as_aws_str eu_central1 = refl
from_aws_str-as_aws_str us_east1 = refl

-- Whatever is read is the text of the value that it is read as.
pub as_aws_str-from_aws_str :
    (s : String) {v : StorageRegion} → from_aws_str s ≡ ok v → as_aws_str v ≡ s
unfolding from_aws_str as_aws_str
as_aws_str-from_aws_str s h =
    ground (arith, eq_iff s "ap-southeast-2", eq_iff s "eu-central-1", eq_iff s "us-east-1")

pub eq→≡ : (a b : StorageRegion) → eq a b ≡ true → a ≡ b
unfolding eq
eq→≡ a b h = ground arith

pub eq_refl : (a : StorageRegion) → eq a a ≡ true
unfolding eq
eq_refl ap_southeast2 = refl
eq_refl eu_central1 = refl
eq_refl us_east1 = refl
