-- ===== src/Base/Text.antt =====
-- The methods of `str` that the handlers use: `contains('@')`, `trim` and `is_empty`.
use Prim.Native.Nat.{ℕ}
use Prim.Native.Char.{Char, code}
use Prim.Native.String.{String}
use mathlib.Core.Bool.{Bool, true, false, ◌&&◌, ◌||◌}
use paschal.Base.Tests.{leb, ◌==◌, if◌then◌else◌}

abbrev pub contains : ℕ → String → Bool
contains c String.[] = false
contains c (String.◌∷◌ d s) = (code d == c) || contains c s

abbrev pub is_empty : String → Bool
is_empty String.[] = true
is_empty (String.◌∷◌ c s) = false

-- `char::is_whitespace`.
abbrev pub is_whitespace : ℕ → Bool
is_whitespace c =
    (leb 9 c && leb c 13)
    || (c == 32)
    || (c == 0x85)
    || (c == 0xA0)
    || (c == 0x1680)
    || (leb 0x2000 c && leb c 0x200A)
    || (c == 0x2028)
    || (c == 0x2029)
    || (c == 0x202F)
    || (c == 0x205F)
    || (c == 0x3000)

abbrev pub trim_start : String → String
trim_start String.[] = String.[]
trim_start (String.◌∷◌ c s) =
    let rest = trim_start s in if is_whitespace (code c) then rest else String.◌∷◌ c s

-- The character in front of a text that is trimmed at its end already.
abbrev pub keep_unless_space : Char → String → String
keep_unless_space c String.[] = if is_whitespace (code c) then String.[] else String.◌∷◌ c String.[]
keep_unless_space c (String.◌∷◌ d s) = String.◌∷◌ c (String.◌∷◌ d s)

abbrev pub trim_end : String → String
trim_end String.[] = String.[]
trim_end (String.◌∷◌ c s) = keep_unless_space c (trim_end s)

abbrev pub trim : String → String
trim s = trim_end (trim_start s)
