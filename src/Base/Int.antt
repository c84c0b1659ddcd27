-- ===== src/Base/Int.antt =====
-- The i32 and i64 quantities that may be negative, and how times move by them.
use Prim.Native.Nat.{ℕ, suc, ◌+◌, ◌-◌, max}
use mathlib.Core.Bool.{Bool, true, false}
use paschal.Base.Tests.{ltb, leb, if◌then◌else◌}

-- `negsuc n` is -(n + 1).
pub data ℤ : Type 0 where
  pos : ℕ → ℤ
  negsuc : ℕ → ℤ

-- `x.max(1) as i64`, a duration of at least a second.
abbrev pub max_one : ℤ → ℕ
max_one (pos n) = max n 1
max_one (negsuc n) = 1

-- `x.max(0)`.
abbrev pub max_zero : ℤ → ℕ
max_zero (pos n) = n
max_zero (negsuc n) = 0

-- A time moved by a signed number of seconds. Times are only ever compared with a later `now`,
-- so a time before the epoch may stand at 0.
abbrev pub shift : ℕ → ℤ → ℕ
shift t (pos n) = t + n
shift t (negsuc n) = t - suc n

abbrev pub ltbℤ : ℤ → ℤ → Bool
ltbℤ (pos m) (pos n) = ltb m n
ltbℤ (pos m) (negsuc n) = false
ltbℤ (negsuc m) (pos n) = true
ltbℤ (negsuc m) (negsuc n) = ltb n m

-- `(later - earlier).num_seconds()`.
abbrev pub seconds_between : ℕ → ℕ → ℤ
seconds_between later earlier =
    if leb earlier later then pos (later - earlier) else negsuc (earlier - suc later)
