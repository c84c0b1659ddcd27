-- ===== src/Base/Numbers.antt =====
-- The text of an integer, as `format!` writes it, and the bytes of a text, as `as_bytes` gives them.
use Prim.Native.Nat.{ℕ, zero, suc, ◌+◌, ◌/◌, ◌%◌}
use Prim.Native.Char.{code}
use Prim.Native.String.{String, ◌++◌ as ◌^^◌, slice}
use mathlib.Core.List.{[], ◌∷◌, ◌++◌}
use paschal.Base.Tests.{ltb, if◌then◌else◌}
use paschal.Base.Int.{ℤ, pos, negsuc}
use paschal.Base.Bytes.{Bytes}

abbrev digit : ℕ → String
digit d = slice "0123456789" d (d + 1)

abbrev decimal_of : ℕ → ℕ → String
decimal_of zero n = ""
decimal_of (suc fuel) n =
    let front = decimal_of fuel (n / 10) in if ltb n 10 then digit n else front ^^ digit (n % 10)

-- A number of at most 20 digits, as a u64 or a usize has them.
unfoldable pub decimal : ℕ → String
decimal = decimal_of 20

-- An i64.
unfoldable pub signed_decimal : ℤ → String
unfolding decimal
signed_decimal (pos n) = decimal n
signed_decimal (negsuc n) = "-" ^^ decimal (n + 1)

-- UTF-8.
abbrev utf8_char : ℕ → Bytes
utf8_char c =
    if ltb c 0x80
    then c ∷ []
    else if ltb c 0x800
    then (0xC0 + c / 0x40) ∷ (0x80 + c % 0x40) ∷ []
    else if ltb c 0x10000
    then (0xE0 + c / 0x1000) ∷ (0x80 + c / 0x40 % 0x40) ∷ (0x80 + c % 0x40) ∷ []
    else
      (0xF0 + c / 0x40000) ∷ (0x80 + c / 0x1000 % 0x40) ∷ (0x80 + c / 0x40 % 0x40) ∷ (0x80 + c % 0x40) ∷ []

unfoldable pub utf8 : String → Bytes
utf8 String.[] = []
utf8 (String.◌∷◌ c s) = utf8_char (code c) ++ utf8 s
