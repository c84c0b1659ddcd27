-- ===== src/Transform/Uploads.antt =====
-- crates/paschal-transform/src/lib.rs: what `apply` does with the default pipeline.
use paschal.Base.{
  ℕ, String, ◌≡◌, refl, inl, inr, ◌≤◌, ◌<◌, true, false, List, [], ◌∷◌, length, ok, arith, ltb,
  if◌then◌else◌, Bool-cases, subst, any,
}
use paschal.Base.Bytes.{Bytes, IsSuffix}
use paschal.Transform.{Transformed, Codecs, Transformer, transformed, first_match, apply}
use paschal.Transform.Text.{text_handles}
use paschal.Transform.Audio.{audio_handles, audio_transform}
use paschal.Transform.Audio.Id3.{strip_id3-IsSuffix, length-strip_id3_pos}
use paschal.Transform.Passes.{
  image_handles, pdf_handles, video_handles, video_transform, binary_handles, binary_transform,
  default_pipeline,
}

-- A result that keeps the upload's bytes, but for a front part.
abbrev pub KeepsTail : Bytes → Transformed → Type 0
KeepsTail input out = IsSuffix out.bytes input × (0 < length out.bytes)

apply-first_match :
    (pipeline : List Transformer) (bytes : Bytes) (mime : String) (max_bytes : ℕ)
    → 0 < length bytes
    → length bytes ≤ max_bytes
    → apply pipeline bytes mime max_bytes ≡ first_match pipeline bytes mime
unfolding apply
apply-first_match pipeline [] mime max_bytes h k = absurd (omega arith)
apply-first_match pipeline (b ∷ bs) mime max_bytes h k = ground arith

first_match-any :
    (pipeline : List Transformer) (bytes : Bytes) (mime : String) (out : Transformed)
    → first_match pipeline bytes mime ≡ ok out
    → any (λ t. t.handles mime) pipeline ≡ true
unfolding first_match
first_match-any [] bytes mime out h = absurd (ground arith)
first_match-any (t ∷ pipeline) bytes mime out h = elim (Bool-cases (t.handles mime)) [
  | inl e ↦ rw e refl
  | inr e ↦ rw e (
      first_match-any pipeline bytes mime out (
        subst
          (λ c. (if c then t.transform bytes mime else first_match pipeline bytes mime) ≡ ok out) e
          h))
]

-- Whatever the pipeline, an upload that it accepts is not empty, is within the limit, and is of a
-- type that one of the transformers handles.
pub accepted_upload :
    (pipeline : List Transformer) (bytes : Bytes) (mime : String) (max_bytes : ℕ)
    (out : Transformed)
    → apply pipeline bytes mime max_bytes ≡ ok out
    → (0 < length bytes) × (length bytes ≤ max_bytes) × (any (λ t. t.handles mime) pipeline ≡ true)
unfolding apply
accepted_upload pipeline [] mime max_bytes out h = absurd (ground arith)
accepted_upload pipeline (b ∷ bs) mime max_bytes out h =
    elim (Bool-cases (ltb max_bytes (length (b ∷ bs)))) [
      | inl e ↦ absurd (ground arith)
      | inr e ↦
          (omega arith, ground arith, first_match-any pipeline (b ∷ bs) mime out (ground arith))
    ]

module _ ⦃x : Codecs⦄ where
  audio-KeepsTail :
      (input : Bytes) (mime : String)
      → 0 < length input
      → (out : Transformed) × (audio_transform input mime ≡ ok out) × KeepsTail input out
  unfolding audio_transform transformed
  audio-KeepsTail input mime h = (_, refl, (strip_id3-IsSuffix input, length-strip_id3_pos input h))

  -- An upload within the limit whose type is no text, image or PDF is always accepted, and what
  -- is stored is the upload without a front part, and not empty.
  pub other_upload_kept :
      (input : Bytes) (mime : String) (max_bytes : ℕ)
      → 0 < length input
      → length input ≤ max_bytes
      → text_handles mime ≡ false
      → image_handles mime ≡ false
      → pdf_handles mime ≡ false
      → (out : Transformed) × (apply default_pipeline input mime max_bytes ≡ ok out)
        × KeepsTail input out
  unfolding default_pipeline first_match video_transform binary_transform binary_handles transformed
  other_upload_kept input mime max_bytes h k text image pdf =
      rw (apply-first_match default_pipeline input mime max_bytes h k) (
        rw text (
          rw image (
            rw pdf (elim (Bool-cases (video_handles mime)) [
              | inl e ↦ rw e (_, refl, (([], refl), h))
              | inr e ↦ rw e (elim (Bool-cases (audio_handles mime)) [
                | inl a ↦ rw a (audio-KeepsTail input mime h)
                | inr a ↦ rw a (_, refl, (([], refl), h))
              ])
            ]))))
