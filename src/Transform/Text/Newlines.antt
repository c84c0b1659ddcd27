-- ===== src/Transform/Text/Newlines.antt =====
-- crates/paschal-transform/src/lib.rs: the line ends that `TextPassThrough` leaves.
use Prim.Native.Nat.{ℕ}
use paschal.Base.{
  String, ◌≡◌, refl, ap, sym, ◌∙◌, subst, ◌≢◌, inl, inr, Bool, true, false, ◌&&◌, [], ◌∷◌, Option,
  none, some, ok, arith, leb, ◌==◌, if◌then◌else◌, All, Bool-cases, ==→≡,
}
use paschal.Base.Bytes.{Bytes, starts_with, starts_with-split}
use paschal.Transform.{Transformed, Codecs, transformed}
use paschal.Transform.Text.{
  start, one, two, three, after_e0, after_ed, after_f0, after_f4, Utf8State, is_start, utf8_step,
  utf8_from, is_utf8, bom, strip_bom, starts_with_lf, replace_crlf, replace_cr, text_transform,
  expect,
}

abbrev pub IsNotCr : ℕ → Type 0
IsNotCr c = c ≢ b'\r'

replace_cr-lf : (s : Bytes) → All IsNotCr (replace_cr s)
unfolding replace_cr
replace_cr-lf [] = tt
replace_cr-lf (c ∷ s) = elim (Bool-cases (c == b'\r')) [
  | inl e ↦ rw e ((λ eq. ground (arith), replace_cr-lf s))
  | inr e ↦ rw e ((ground (arith), replace_cr-lf s))
]

-- A text without CR is left as it is.
replace_cr-id : (s : Bytes) → All IsNotCr s → replace_cr s ≡ s
unfolding replace_cr
replace_cr-id [] h = refl
replace_cr-id (c ∷ s) (h, hs) = ground (arith, replace_cr-id s hs)

replace_crlf-id : (s : Bytes) → All IsNotCr s → replace_crlf s ≡ s
unfolding replace_crlf
replace_crlf-id [] h = refl
replace_crlf-id (c ∷ s) (h, hs) = ground (arith, replace_crlf-id s hs)

-- An ASCII byte stands only between characters.
step_ascii :
    (q : Utf8State) (c : ℕ) → leb 0x80 c ≡ false → utf8_step q c ≡ expect (is_start q) start
unfolding utf8_step
step_ascii start c h = ground arith
step_ascii one c h = ground arith
step_ascii two c h = ground arith
step_ascii three c h = ground arith
step_ascii after_e0 c h = ground arith
step_ascii after_ed c h = ground arith
step_ascii after_f0 c h = ground arith
step_ascii after_f4 c h = ground arith

step_lf-cr : (q : Utf8State) → utf8_step q b'\n' ≡ utf8_step q b'\r'
step_lf-cr q = step_ascii q b'\n' refl ∙ sym (step_ascii q b'\r' refl)

replace_cr-utf8 : (q : Option Utf8State) (s : Bytes) → utf8_from q (replace_cr s) ≡ utf8_from q s
unfolding replace_cr utf8_from
replace_cr-utf8 none s = refl
replace_cr-utf8 (some q) [] = refl
replace_cr-utf8 (some q) (c ∷ s) = elim (Bool-cases (c == b'\r')) [
  | inl e ↦
      rw (==→≡ c b'\r' e)
        (replace_cr-utf8 (utf8_step q b'\n') s ∙ ap (λ r. utf8_from r s) (step_lf-cr q))
  | inr e ↦ rw e (replace_cr-utf8 (utf8_step q c) s)
]

from_start :
    (q : Utf8State) (s : Bytes)
    → utf8_from (expect (is_start q) start) s ≡ true
    → utf8_from (some q) s ≡ true
unfolding utf8_from
from_start start s h = h
from_start one s h = absurd (ground arith)
from_start two s h = absurd (ground arith)
from_start three s h = absurd (ground arith)
from_start after_e0 s h = absurd (ground arith)
from_start after_ed s h = absurd (ground arith)
from_start after_f0 s h = absurd (ground arith)
from_start after_f4 s h = absurd (ground arith)

replace_crlf-utf8 :
    (q : Option Utf8State) (s : Bytes) → utf8_from q s ≡ true → utf8_from q (replace_crlf s) ≡ true
unfolding replace_crlf utf8_from
replace_crlf-utf8 none s h = h
replace_crlf-utf8 (some q) [] h = h
replace_crlf-utf8 (some q) (c ∷ s) h = elim (Bool-cases ((c == b'\r') && starts_with_lf s)) [
  | inl e ↦ rw e (
      replace_crlf-utf8 (some q) s
        (from_start q s (subst (λ r. utf8_from r s ≡ true) (step_ascii q c (ground arith)) h)))
  | inr e ↦ rw e (replace_crlf-utf8 (utf8_step q c) s h)
]

strip_bom-utf8 : (s : Bytes) → is_utf8 s ≡ true → is_utf8 (strip_bom s) ≡ true
unfolding strip_bom is_utf8 utf8_from utf8_step
strip_bom-utf8 s h = elim (Bool-cases (starts_with s bom)) [
  | inl e ↦ rw e (subst (λ t. is_utf8 t ≡ true) (starts_with-split s bom e) h)
  | inr e ↦ rw e h
]

-- Universal newlines in one pass: CR, LF and CR LF each end a line, which LF then ends. The flag
-- says that a CR stands before.
unfoldable pub newlines : Bool → Bytes → Bytes
newlines after_cr [] = []
newlines after_cr (c ∷ s) =
    let end = newlines true s in
    let rest = newlines false s in
    if c == b'\r' then b'\n' ∷ end else if after_cr && (c == b'\n') then rest else c ∷ rest

after_cr-lem :
    (s : Bytes)
    → b'\n' ∷ newlines true s
      ≡ (if starts_with_lf s then newlines false s else b'\n' ∷ newlines false s)
unfolding newlines
after_cr-lem [] = refl
after_cr-lem (c ∷ s) = ground arith

-- The two passes over the line ends do what one pass does that writes LF for each CR LF, each
-- other CR and each other LF.
pub normalise_newlines : (s : Bytes) → replace_cr (replace_crlf s) ≡ newlines false s
unfolding replace_cr replace_crlf newlines
normalise_newlines [] = refl
normalise_newlines (c ∷ s) = ground (arith, normalise_newlines s, after_cr-lem s)

-- An upload that is UTF-8 is accepted, and what is stored is UTF-8, contains no CR, and is the
-- upload itself if it has neither a byte order mark nor a CR.
pub text_normalised :
    ⦃x : Codecs⦄ (input : Bytes) (mime : String)
    → is_utf8 input ≡ true
    → (out : Transformed) × (text_transform input mime ≡ ok out)
      × (is_utf8 out.bytes ≡ true)
      × All IsNotCr out.bytes
      × (starts_with input bom ≡ false → All IsNotCr input → out.bytes ≡ input)
unfolding text_transform transformed strip_bom is_utf8
text_normalised input mime h =
    let s = strip_bom input in
    rw h (
      _,
      refl,
      replace_cr-utf8 (some start) (replace_crlf s)
          ∙ replace_crlf-utf8 (some start) s (strip_bom-utf8 input h),
      replace_cr-lf (replace_crlf s),
      λ no_bom no_cr. rw no_bom (rw (replace_crlf-id input no_cr) (replace_cr-id input no_cr)),
    )
