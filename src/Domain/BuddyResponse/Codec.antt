-- ===== src/Domain/BuddyResponse/Codec.antt =====
-- The texts of `BuddyResponse` in the database, and that `eq` decides equality.
use paschal.Base.{String, ◌≡◌, refl, true, ok, arith, eq_iff}
use paschal.Domain.BuddyResponse.{
  BuddyResponse, well, worried, unable_to_reach, as_db_str, from_db_str, eq,
}

-- What is written is read back as the same value.
pub from_db_str-as_db_str : (v : BuddyResponse) → from_db_str (as_db_str v) ≡ ok v
unfolding from_db_str as_db_str
from_db_str-as_db_str well = refl
from_db_str-as_db_str worried = refl
from_db_str-as_db_str unable_to_reach = refl

-- Whatever is read is the text of the value that it is read as.
pub as_db_str-from_db_str :
    (s : String) {v : BuddyResponse} → from_db_str s ≡ ok v → as_db_str v ≡ s
unfolding from_db_str as_db_str
as_db_str-from_db_str s h =
    ground (arith, eq_iff s "WELL", eq_iff s "WORRIED", eq_iff s "UNABLE_TO_REACH")

pub eq→≡ : (a b : BuddyResponse) → eq a b ≡ true → a ≡ b
unfolding eq
eq→≡ a b h = ground arith

pub eq_refl : (a : BuddyResponse) → eq a a ≡ true
unfolding eq
eq_refl well = refl
eq_refl worried = refl
eq_refl unable_to_reach = refl
