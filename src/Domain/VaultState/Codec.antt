-- ===== src/Domain/VaultState/Codec.antt =====
-- The texts of `VaultState` in the database, and that `eq` decides equality.
use paschal.Base.{String, ◌≡◌, refl, true, ok, arith, eq_iff}
use paschal.Domain.VaultState.{
  VaultState, active, suspicious, alert, cooling_off, releasing, released, archived, as_db_str,
  from_db_str, eq,
}

-- What is written is read back as the same value.
pub from_db_str-as_db_str : (v : VaultState) → from_db_str (as_db_str v) ≡ ok v
unfolding from_db_str as_db_str
from_db_str-as_db_str active = refl
from_db_str-as_db_str suspicious = refl
from_db_str-as_db_str alert = refl
from_db_str-as_db_str cooling_off = refl
from_db_str-as_db_str releasing = refl
from_db_str-as_db_str released = refl
from_db_str-as_db_str archived = refl

-- Whatever is read is the text of the value that it is read as.
pub as_db_str-from_db_str : (s : String) {v : VaultState} → from_db_str s ≡ ok v → as_db_str v ≡ s
unfolding from_db_str as_db_str
as_db_str-from_db_str s h = ground (
  arith,
  eq_iff s "ACTIVE",
  eq_iff s "SUSPICIOUS",
  eq_iff s "ALERT",
  eq_iff s "COOLING_OFF",
  eq_iff s "RELEASING",
  eq_iff s "RELEASED",
  eq_iff s "ARCHIVED",
)

pub eq→≡ : (a b : VaultState) → eq a b ≡ true → a ≡ b
unfolding eq
eq→≡ a b h = ground arith

pub eq_refl : (a : VaultState) → eq a a ≡ true
unfolding eq
eq_refl active = refl
eq_refl suspicious = refl
eq_refl alert = refl
eq_refl cooling_off = refl
eq_refl releasing = refl
eq_refl released = refl
eq_refl archived = refl
