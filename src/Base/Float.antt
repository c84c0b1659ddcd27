-- ===== src/Base/Float.antt =====
-- Rust's f32, which the model does not define: a type with the operations that the program uses.
use Prim.Native.Nat.{ℕ}
use mathlib.Core.Bool.{Bool}
use paschal.Base.{ℤ, if◌then◌else◌}

pub record Float32 : Type 1 where
  pub F : Type 0
  -- The literal k / 100.
  pub hundredths : ℕ → F
  -- `x as f32`.
  pub of_int : ℤ → F
  pub add : F → F → F
  pub mul : F → F → F
  pub div : F → F → F
  pub sqrt : F → F
  pub exp : F → F
  pub neg : F → F
  pub max : F → F → F
  pub sub : F → F → F
  pub min : F → F → F
  -- `as_secs_f32` of a duration of this many nanoseconds.
  pub secs_of_nanos : ℕ → F
  -- The 32 bits of a number, and the number of the bits.
  pub to_bits : F → ℕ
  pub of_bits : ℕ → F
  -- `x.ceil() as u32`.
  pub ceil_u32 : F → ℕ
  pub leb : F → F → Bool
  pub ltb : F → F → Bool

module _ ⦃f : Float32⦄ where
  open f use {F, hundredths, ltb}

  -- `x.clamp(0.0, 1.0)`.
  unfoldable pub clamp_unit : F → F
  clamp_unit x =
      if ltb x (hundredths 0)
      then hundredths 0
      else if ltb (hundredths 100) x
      then hundredths 100
      else x
