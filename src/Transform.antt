-- ===== src/Transform.antt =====
-- crates/paschal-transform/src/lib.rs: uploads, the errors, `Transformer` and the walk of the
-- pipeline. The image codec and SHA-256 with its hexadecimal form are parameters.
pub mod Text
pub mod Audio
pub mod Passes
pub mod Uploads
use paschal.Base.{ℕ, String, Bool, List, [], ◌∷◌, length, Result, ok, err, ltb, if◌then◌else◌}
use paschal.Base.Bytes.{Bytes}

pub data TransformError : Type 0 where
  empty : TransformError
  too_large : ℕ → ℕ → TransformError
  image_decode : String → TransformError
  image_encode : String → TransformError
  invalid_utf8 : TransformError
  bad_pdf_header : TransformError
  no_match : String → TransformError

pub record Transformed : Type 0 where
  pub bytes : Bytes
  pub mime : String
  pub notes : List String
  pub sha256_hex : String

-- The crates `image` (a file decoded to pixels, pixels written as JPEG of a quality) and `sha2`
-- with `hex`.
pub record Codecs : Type 1 where
  pub Pixels : Type 0
  pub decode_image : Bytes → Result String Pixels
  pub encode_jpeg : ℕ → Pixels → Result String Bytes
  pub sha256_hex : Bytes → String

pub record Transformer : Type 0 where
  pub name : String
  pub handles : String → Bool
  pub transform : Bytes → String → Result TransformError Transformed

unfoldable pub transformed : ⦃x : Codecs⦄ → Bytes → String → List String → Transformed
transformed ⦃x⦄ bytes mime notes = record {
  bytes = bytes;
  mime = mime;
  notes = notes;
  sha256_hex = x.sha256_hex bytes;
}

-- The loop over the pipeline.
unfoldable pub first_match : List Transformer → Bytes → String → Result TransformError Transformed
first_match [] bytes mime = err (no_match mime)
first_match (t ∷ pipeline) bytes mime =
    let rest = first_match pipeline bytes mime in
    if t.handles mime then t.transform bytes mime else rest

unfoldable pub apply : List Transformer → Bytes → String → ℕ → Result TransformError Transformed
apply pipeline [] mime max_bytes = err empty
apply pipeline (b ∷ bs) mime max_bytes =
    if ltb max_bytes (length (b ∷ bs))
    then err (too_large (length (b ∷ bs)) max_bytes)
    else first_match pipeline (b ∷ bs) mime
