-- ===== src/Transform/Audio.antt =====
-- crates/paschal-transform/src/lib.rs: `AudioPassThrough`, with its strip of an ID3v2 tag, and
-- what the notes say of containers.
pub mod Id3
use Prim.Native.Nat.{bit_or}
use Prim.Native.String.{◌++◌ as ◌^^◌, slice}
use mathlib.Core.List.{◌++◌}
use text.Mathlib.Text.{starts_with as text_starts_with}
use paschal.Base.{
  ℕ, zero, suc, ◌+◌, ◌*◌, ◌/◌, ◌%◌, ◌^◌, String, Bool, ◌&&◌, List, [], ◌∷◌, length, Result, ok, ltb,
  leb, ◌==◌, if◌then◌else◌,
}
use paschal.Base.Numbers.{decimal}
use paschal.Base.Bytes.{Bytes, bytes_of, starts_with, drop, byte_at}
use paschal.Transform.{TransformError, Transformed, Codecs, transformed}

-- The size field: four bytes at offset 6, each shifted by seven bits more than the next.
unfoldable pub id3_size : Bytes → ℕ
id3_size b =
    bit_or (bit_or (bit_or (byte_at 6 b * 2 ^ 21) (byte_at 7 b * 2 ^ 14)) (byte_at 8 b * 2 ^ 7))
      (byte_at 9 b)

unfoldable pub has_id3 : Bytes → Bool
unfolding id3_size
has_id3 b = ltb 10 (length b) && starts_with b (bytes_of "ID3") && ltb (10 + id3_size b) (length b)

unfoldable pub strip_id3 : Bytes → Bytes
unfolding has_id3
strip_id3 b = if has_id3 b then drop (10 + id3_size b) b else b

unfoldable pub id3_notes : Bytes → List String
unfolding has_id3 decimal
id3_notes b =
    if has_id3 b
    then ("Stripped ID3v2 metadata header (" ^^ decimal (10 + id3_size b) ^^ " bytes).") ∷ []
    else []

-- `b.len() >= 12 && &b[i..i + 4] == magic`.
abbrev pub magic_at : ℕ → String → Bytes → Bool
magic_at i magic b = leb 12 (length b) && starts_with (drop i b) (bytes_of magic)

unfoldable pub audio_container_notes : Bytes → List String
audio_container_notes b =
    if starts_with b (bytes_of "OggS")
    then "Ogg container detected (likely Opus or Vorbis)." ∷ []
    else if starts_with b (bytes_of "fLaC")
    then "FLAC stream detected." ∷ []
    else if starts_with b (bytes_of "RIFF") && magic_at 8 "WAVE" b
    then "RIFF WAV detected." ∷ []
    else if magic_at 4 "ftyp" b
    then "ISO BMFF audio container detected (e.g. M4A / AAC)." ∷ []
    else []

unfoldable pub audio_handles : String → Bool
audio_handles mime = text_starts_with mime "audio/"

unfoldable pub audio_transform : ⦃x : Codecs⦄ → Bytes → String → Result TransformError Transformed
unfolding strip_id3 id3_notes audio_container_notes transformed
audio_transform input original_mime =
    let output = strip_id3 input in
    let kept =
      if length output == length input
      then "preserved as-is"
      else "preserved after metadata strip" in
    let plan =
      "Bytes " ^^ kept ^^ " (" ^^ original_mime
      ^^ "). v1 plan: transcode to Opus in Ogg for archival stability." in
    ok (
      transformed output original_mime
        (id3_notes input ++ audio_container_notes output ++ (plan ∷ [])))
