-- ===== src/Transform/Passes.antt =====
-- crates/paschal-transform/src/lib.rs: the image, PDF, video and binary transformers, and the
-- default pipeline.
use Prim.Native.String.{◌++◌ as ◌^^◌}
use text.Mathlib.Text.{starts_with as text_starts_with}
use paschal.Base.{
  String, Bool, true, ◌&&◌, ◌||◌, List, [], ◌∷◌, Result, ok, err, str_eq, if◌then◌else◌,
}
use paschal.Base.Bytes.{Bytes, bytes_of, starts_with}
use paschal.Transform.{
  TransformError, Transformed, Codecs, Transformer, bad_pdf_header, image_decode, image_encode,
  transformed,
}
use paschal.Transform.Text.{text_handles, text_transform}
use paschal.Transform.Audio.{audio_handles, audio_transform, magic_at}

unfoldable pub image_handles : String → Bool
image_handles mime =
    str_eq mime "image/jpeg"
    || str_eq mime "image/png"
    || str_eq mime "image/gif"
    || str_eq mime "image/webp"

unfoldable pub pdf_handles : String → Bool
pdf_handles mime = str_eq mime "application/pdf"

unfoldable pub pdf_transform : ⦃x : Codecs⦄ → Bytes → String → Result TransformError Transformed
unfolding transformed
pdf_transform input original_mime =
    if starts_with input (bytes_of "%PDF-")
    then ok (
        transformed input "application/pdf" (
          "Validated PDF header (%PDF-)"
          ∷ "Bytes preserved as-is. PDF/A conversion lands at v1 via Ghostscript." ∷ []))
    else err bad_pdf_header

unfoldable pub video_handles : String → Bool
video_handles mime = text_starts_with mime "video/"

unfoldable pub video_container_note : Bytes → String
video_container_note input =
    if magic_at 4 "ftyp" input
    then "ISO BMFF container detected (MP4 / 3GP / QuickTime family)."
    else if starts_with input (0x1A ∷ 0x45 ∷ 0xDF ∷ 0xA3 ∷ [])
    then "EBML container detected (WebM / Matroska family)."
    else if starts_with input (bytes_of "RIFF") && magic_at 8 "AVI " input
    then "RIFF AVI container detected."
    else "Container magic not recognised — we are preserving the bytes anyway, but the recipient may need a current player to open it."

unfoldable pub video_transform : ⦃x : Codecs⦄ → Bytes → String → Result TransformError Transformed
unfolding transformed video_container_note
video_transform input original_mime = ok (
    transformed input original_mime (
      ("Bytes preserved as-is (" ^^ original_mime
        ^^ "). The principal is responsible for choosing a long-term-readable format; we recommend WebM (VP9 + Opus) or MP4 (H.264 + AAC).")
      ∷ video_container_note input
      ∷ "v1 plan: transcode to WebM (VP9 + Opus) for archival stability."
      ∷ []))

unfoldable pub binary_handles : String → Bool
binary_handles mime = true

unfoldable pub binary_transform : ⦃x : Codecs⦄ → Bytes → String → Result TransformError Transformed
unfolding transformed
binary_transform input original_mime = ok (
    transformed input original_mime (
      ("No dedicated transformer for '" ^^ original_mime
        ^^ "'. Bytes preserved as-is. Consider attaching a flattened version (PDF, JPEG, plain text) for archival.")
      ∷ []))

module _ ⦃x : Codecs⦄ where
  -- `write_with_encoder`, on the pixels decoded.
  unfoldable pub reencode : Result String x.Pixels → Result TransformError Transformed
  unfolding transformed
  reencode (err e) = err (image_decode e)
  reencode (ok pixels) = elim (x.encode_jpeg 90 pixels) [
    | err e ↦ err (image_encode e)
    | ok buf ↦ ok (
        transformed buf "image/jpeg" (
          "Decoded to pixels and re-encoded as JPEG (quality 90)"
          ∷ "Stripped EXIF / XMP / IPTC metadata (including GPS coordinates)" ∷ []))
  ]

  unfoldable pub image_transform : Bytes → String → Result TransformError Transformed
  unfolding reencode
  image_transform input original_mime = reencode (x.decode_image input)

  unfoldable pub default_pipeline : List Transformer
  default_pipeline =
      record { name = "text-pass-through"; handles = text_handles; transform = text_transform }
      ∷ record { name = "image-normalizer"; handles = image_handles; transform = image_transform }
      ∷ record { name = "pdf-pass-through"; handles = pdf_handles; transform = pdf_transform }
      ∷ record { name = "video-pass-through"; handles = video_handles; transform = video_transform }
      ∷ record { name = "audio-pass-through"; handles = audio_handles; transform = audio_transform }
      ∷ record {
        name = "binary-pass-through";
        handles = binary_handles;
        transform = binary_transform;
      }
      ∷ []
