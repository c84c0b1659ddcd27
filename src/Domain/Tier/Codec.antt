-- ===== src/Domain/Tier/Codec.antt =====
-- The texts of `Tier` in the database, and that `eq` decides equality.
use paschal.Base.{String, ◌≡◌, refl, true, ok, arith, eq_iff}
use paschal.Domain.Tier.{Tier, honest_operator, zero_knowledge, as_db_str, from_db_str, eq}

-- What is written is read back as the same value.
pub from_db_str-as_db_str : (v : Tier) → from_db_str (as_db_str v) ≡ ok v
unfolding from_db_str as_db_str
from_db_str-as_db_str honest_operator = refl
from_db_str-as_db_str zero_knowledge = refl

-- Whatever is read is the text of the value that it is read as.
pub as_db_str-from_db_str : (s : String) {v : Tier} → from_db_str s ≡ ok v → as_db_str v ≡ s
unfolding from_db_str as_db_str
as_db_str-from_db_str s h = ground (arith, eq_iff s "HONEST_OPERATOR", eq_iff s "ZERO_KNOWLEDGE")

pub eq→≡ : (a b : Tier) → eq a b ≡ true → a ≡ b
unfolding eq
eq→≡ a b h = ground arith

pub eq_refl : (a : Tier) → eq a a ≡ true
unfolding eq
eq_refl honest_operator = refl
eq_refl zero_knowledge = refl
