-- ===== src/Domain/ReleaseMode/Codec.antt =====
-- The texts of `ReleaseMode` in the database, and that `eq` decides equality.
use paschal.Base.{String, ◌≡◌, refl, true, ok, arith, eq_iff}
use paschal.Domain.ReleaseMode.{
  ReleaseMode, signal_or_scheduled, scheduled_only, signal_only, event_on_demand, as_db_str,
  from_db_str, eq,
}

-- What is written is read back as the same value.
pub from_db_str-as_db_str : (v : ReleaseMode) → from_db_str (as_db_str v) ≡ ok v
unfolding from_db_str as_db_str
from_db_str-as_db_str signal_or_scheduled = refl
from_db_str-as_db_str scheduled_only = refl
from_db_str-as_db_str signal_only = refl
from_db_str-as_db_str event_on_demand = refl

-- Whatever is read is the text of the value that it is read as.
pub as_db_str-from_db_str : (s : String) {v : ReleaseMode} → from_db_str s ≡ ok v → as_db_str v ≡ s
unfolding from_db_str as_db_str
as_db_str-from_db_str s h = ground (
  arith,
  eq_iff s "SIGNAL_OR_SCHEDULED",
  eq_iff s "SCHEDULED_ONLY",
  eq_iff s "SIGNAL_ONLY",
  eq_iff s "EVENT_ON_DEMAND",
)

pub eq→≡ : (a b : ReleaseMode) → eq a b ≡ true → a ≡ b
unfolding eq
eq→≡ a b h = ground arith

pub eq_refl : (a : ReleaseMode) → eq a a ≡ true
unfolding eq
eq_refl signal_or_scheduled = refl
eq_refl scheduled_only = refl
eq_refl signal_only = refl
eq_refl event_on_demand = refl
