-- ===== src/Base/Bytes.antt =====
-- Byte strings and Rust's slices of them: the bytes of a literal, prefixes, `&b[i..j]`, and what
-- is left after `drain(0..n)`. A `str` is its UTF-8, as in Rust.
use Prim.Native.Char.{code}
use Prim.Native.Nat.{ℕ, zero, suc, ◌<◌}
use Prim.Native.String.{String}
use mathlib.Core.Path.{◌≡◌, refl, ap}
use mathlib.Core.Bool.{Bool, true, false, ◌&&◌}
use mathlib.Core.List.{List, [], ◌∷◌, ◌++◌}
use native.Mathlib.Omega.{arith}
use paschal.Base.Lists.{length}
use paschal.Base.Tests.{◌==◌}

abbrev pub Bytes : Type 0
Bytes = List ℕ

-- The bytes of an ASCII literal.
abbrev pub bytes_of : String → Bytes
bytes_of String.[] = []
bytes_of (String.◌∷◌ c s) = code c ∷ bytes_of s

abbrev pub starts_with : Bytes → Bytes → Bool
starts_with s [] = true
starts_with [] (c ∷ p) = false
starts_with (d ∷ s) (c ∷ p) = (d == c) && starts_with s p

abbrev pub drop {ℓ} : {A : Type ℓ} → ℕ → List A → List A
drop zero s = s
drop (suc n) [] = []
drop (suc n) (c ∷ s) = drop n s

abbrev pub take {ℓ} : {A : Type ℓ} → ℕ → List A → List A
take zero s = []
take (suc n) [] = []
take (suc n) (c ∷ s) = c ∷ take n s

-- `b[i]`, read only where `i` is in range.
abbrev pub byte_at : ℕ → Bytes → ℕ
byte_at i [] = 0
byte_at zero (c ∷ s) = c
byte_at (suc i) (c ∷ s) = byte_at i s

-- `s` ends in `t`.
abbrev pub IsSuffix : Bytes → Bytes → Type 0
IsSuffix t s = (front : Bytes) × (front ++ t ≡ s)

pub drop-IsSuffix : (n : ℕ) (s : Bytes) → IsSuffix (drop n s) s
drop-IsSuffix zero s = ([], refl)
drop-IsSuffix (suc n) [] = ([], refl)
drop-IsSuffix (suc n) (c ∷ s) =
    let (front, same) = drop-IsSuffix n s in (c ∷ front, ap (◌∷◌ c) same)

pub length-drop_pos : (n : ℕ) (s : Bytes) → n < length s → 0 < length (drop n s)
length-drop_pos zero s h = h
length-drop_pos (suc n) [] h = absurd (omega arith)
length-drop_pos (suc n) (c ∷ s) h = length-drop_pos n s (omega arith)

pub starts_with-split : (s p : Bytes) → starts_with s p ≡ true → s ≡ p ++ drop (length p) s
starts_with-split s [] h = refl
starts_with-split [] (c ∷ p) h = absurd (ground arith)
starts_with-split (d ∷ s) (c ∷ p) h = ground (arith, starts_with-split s p)

abbrev pub bytes_eq : Bytes → Bytes → Bool
bytes_eq [] [] = true
bytes_eq [] (d ∷ t) = false
bytes_eq (c ∷ s) [] = false
bytes_eq (c ∷ s) (d ∷ t) = (c == d) && bytes_eq s t

pub bytes_eq_refl : (s : Bytes) → bytes_eq s s ≡ true
bytes_eq_refl [] = refl
bytes_eq_refl (c ∷ s) = ground (arith, bytes_eq_refl s)

pub bytes_eq→≡ : (s t : Bytes) → bytes_eq s t ≡ true → s ≡ t
bytes_eq→≡ [] [] h = refl
bytes_eq→≡ [] (d ∷ t) h = absurd (ground arith)
bytes_eq→≡ (c ∷ s) [] h = absurd (ground arith)
bytes_eq→≡ (c ∷ s) (d ∷ t) h = ground (arith, bytes_eq→≡ s t)
