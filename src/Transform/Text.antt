-- ===== src/Transform/Text.antt =====
-- crates/paschal-transform/src/lib.rs: `TextPassThrough`. A text is its UTF-8: the check of
-- `std::str::from_utf8`, the byte order mark, and the two passes over the line ends.
pub mod Newlines
use paschal.Base.{
  ℕ, String, ◌≡◌, refl, Bool, true, false, ◌&&◌, ◌||◌, List, [], ◌∷◌, Option, none, some, Result,
  ok, err, ltb, leb, str_eq, ◌==◌, if◌then◌else◌,
}
use paschal.Base.Bytes.{Bytes, starts_with, drop}
use paschal.Transform.{TransformError, invalid_utf8, Transformed, Codecs, transformed}
use text.Mathlib.Text.{starts_with as text_starts_with}

-- What bytes may come next: one, two or three continuation bytes; after E0, ED, F0 and F4 the
-- next byte has a smaller range.
pub data Utf8State : Type 0 where
  start one two three after_e0 after_ed after_f0 after_f4 : Utf8State

abbrev pub in_range : ℕ → ℕ → ℕ → Bool
in_range lo hi b = leb lo b && leb b hi

abbrev pub expect : Bool → Utf8State → Option Utf8State
expect true q = some q
expect false q = none

unfoldable pub utf8_step : Utf8State → ℕ → Option Utf8State
utf8_step start b =
    if ltb b 0x80
    then some start
    else if in_range 0xC2 0xDF b
    then some one
    else if b == 0xE0
    then some after_e0
    else if b == 0xED
    then some after_ed
    else if in_range 0xE1 0xEF b
    then some two
    else if b == 0xF0
    then some after_f0
    else if in_range 0xF1 0xF3 b
    then some three
    else expect (b == 0xF4) after_f4
utf8_step one b = expect (in_range 0x80 0xBF b) start
utf8_step two b = expect (in_range 0x80 0xBF b) one
utf8_step three b = expect (in_range 0x80 0xBF b) two
utf8_step after_e0 b = expect (in_range 0xA0 0xBF b) one
utf8_step after_ed b = expect (in_range 0x80 0x9F b) one
utf8_step after_f0 b = expect (in_range 0x90 0xBF b) two
utf8_step after_f4 b = expect (in_range 0x80 0x8F b) two

abbrev pub is_start : Utf8State → Bool
is_start start = true
is_start q = false

-- The state after the bytes so far, none once one of them was out of place.
unfoldable pub utf8_from : Option Utf8State → Bytes → Bool
utf8_from none s = false
utf8_from (some q) [] = is_start q
utf8_from (some q) (b ∷ s) = utf8_from (utf8_step q b) s

unfoldable pub is_utf8 : Bytes → Bool
is_utf8 = utf8_from (some start)

-- U+FEFF.
abbrev pub bom : Bytes
bom = 0xEF ∷ 0xBB ∷ 0xBF ∷ []

unfoldable pub strip_bom : Bytes → Bytes
strip_bom s = if starts_with s bom then drop 3 s else s

abbrev pub starts_with_lf : Bytes → Bool
starts_with_lf [] = false
starts_with_lf (c ∷ s) = c == b'\n'

-- `.replace("\r\n", "\n")`: a CR in front of an LF is left out, and the LF stays.
unfoldable pub replace_crlf : Bytes → Bytes
replace_crlf [] = []
replace_crlf (c ∷ s) =
    let rest = replace_crlf s in if (c == b'\r') && starts_with_lf s then rest else c ∷ rest

-- `.replace('\r', "\n")`.
unfoldable pub replace_cr : Bytes → Bytes
replace_cr [] = []
replace_cr (c ∷ s) = let rest = replace_cr s in if c == b'\r' then b'\n' ∷ rest else c ∷ rest

unfoldable pub text_handles : String → Bool
text_handles mime =
    text_starts_with mime "text/" || str_eq mime "application/json" || str_eq mime "application/xml"

unfoldable pub text_transform : ⦃x : Codecs⦄ → Bytes → String → Result TransformError Transformed
unfolding transformed
text_transform input original_mime =
    if is_utf8 input
    then ok (
        transformed (replace_cr (replace_crlf (strip_bom input))) original_mime
          ("Stripped UTF-8 BOM if present" ∷ "Normalised line endings to LF" ∷ []))
    else err invalid_utf8
