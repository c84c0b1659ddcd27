-- ===== src/Domain/SubscriptionState/Codec.antt =====
-- The texts of `SubscriptionState` in the database, and that `eq` decides equality.
use paschal.Base.{String, ◌≡◌, refl, true, ok, arith, eq_iff}
use paschal.Domain.SubscriptionState.{
  SubscriptionState, trialing, active, past_due, canceled, expired, deleted, as_db_str, from_db_str,
  eq,
}

-- What is written is read back as the same value.
pub from_db_str-as_db_str : (v : SubscriptionState) → from_db_str (as_db_str v) ≡ ok v
unfolding from_db_str as_db_str
from_db_str-as_db_str trialing = refl
from_db_str-as_db_str active = refl
from_db_str-as_db_str past_due = refl
from_db_str-as_db_str canceled = refl
from_db_str-as_db_str expired = refl
from_db_str-as_db_str deleted = refl

-- Whatever is read is the text of the value that it is read as.
pub as_db_str-from_db_str :
    (s : String) {v : SubscriptionState} → from_db_str s ≡ ok v → as_db_str v ≡ s
unfolding from_db_str as_db_str
as_db_str-from_db_str s h = ground (
  arith,
  eq_iff s "TRIALING",
  eq_iff s "ACTIVE",
  eq_iff s "PAST_DUE",
  eq_iff s "CANCELED",
  eq_iff s "EXPIRED",
  eq_iff s "DELETED",
)

pub eq→≡ : (a b : SubscriptionState) → eq a b ≡ true → a ≡ b
unfolding eq
eq→≡ a b h = ground arith

pub eq_refl : (a : SubscriptionState) → eq a a ≡ true
unfolding eq
eq_refl trialing = refl
eq_refl active = refl
eq_refl past_due = refl
eq_refl canceled = refl
eq_refl expired = refl
eq_refl deleted = refl
