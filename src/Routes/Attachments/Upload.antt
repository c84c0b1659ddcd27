-- ===== src/Routes/Attachments/Upload.antt =====
-- crates/beacon-api/src/routes.rs: the bounds on uploads, and what a failed file leaves.
use paschal.Base.{
  ℕ, suc, ◌≤◌, String, ◌≡◌, refl, subst, List, [], ◌∷◌, ◌++◌, Option, none, some, Result, ok, err,
  ltb, length, All, arith, Bool-cases, inl, inr,
}
use paschal.Base.Bytes.{Bytes, bytes_of}
use paschal.Domain.ReleaseMode.{ReleaseMode}
use paschal.Transform.{Codecs, TransformError, apply}
use paschal.Transform.Passes.{default_pipeline}
use paschal.Db.Sql.{first}
use paschal.Db.Tables.{Vault, Letter}
use paschal.Db.Letters as LetterQueries
use paschal.Db.Letters.{LetterSealInput, letter_by_id, fetch_letter}
use paschal.Db.Letters.Stored.{fetch_letter-seal_letter, seal_letter_keeps}
use paschal.App.World.{World, Platform, ApiError, bad_request}
use paschal.Routes.Vaults.{unwrap_or}
use paschal.Routes.Letters.{Kms, mode_value}
use paschal.Routes.Attachments.{
  Blobs, Field, Form, empty_form, read_field, read_fields, seal_file, seal_files, store_upload,
}

abbrev pub IsWithin : ℕ → String × String × Bytes → Type 0
IsWithin n (name, mime, bytes) = length bytes ≤ n

All-append :
    (n : ℕ) (files : List (String × String × Bytes)) (f : String × String × Bytes)
    → All (IsWithin n) files
    → IsWithin n f
    → All (IsWithin n) (files ++ f ∷ [])
All-append n [] f h k = (k, tt)
All-append n (g ∷ files) f (first_ok, h) k = (first_ok, All-append n files f h k)

abbrev files_of : Result ApiError Form → List (String × String × Bytes)
files_of (ok form) = form.files
files_of (err e) = []

read_field-IsWithin :
    (n : ℕ) (form : Form) (part : Field)
    → All (IsWithin n) form.files
    → All (IsWithin n) (files_of (read_field n form part))
unfolding read_field
read_field-IsWithin n form (Field.title s) h = h
read_field-IsWithin n form (Field.recipient_email s) h = h
read_field-IsWithin n form (Field.body s) h = h
read_field-IsWithin n form (Field.kind s) h = h
read_field-IsWithin n form (Field.category s) h = h
read_field-IsWithin n form (Field.release_mode s) h = h
read_field-IsWithin n form (Field.scheduled_release_at t) h = h
read_field-IsWithin n form (Field.file name mime bytes) h =
    elim (Bool-cases (ltb n (length bytes))) [
      | inl large ↦ rw large tt
      | inr small ↦ rw small (All-append n form.files (name, mime, bytes) h (ground (arith, small)))
    ]
read_field-IsWithin n form Field.unknown h = h
read_field-IsWithin n form Field.broken h = tt

read_fields-IsWithin :
    (n : ℕ) (form : Form) (parts : List Field)
    → All (IsWithin n) form.files
    → All (IsWithin n) (files_of (read_fields n form parts))
unfolding read_fields
read_fields-IsWithin n form [] h = h
read_fields-IsWithin n form (part ∷ parts) h =
    after_part (read_field n form part) (read_field-IsWithin n form part h)
      (λ form' k. read_fields-IsWithin n form' parts k)
  where
    after_part :
        (r : Result ApiError Form)
        → All (IsWithin n) (files_of r)
        → ((form' : Form)
            → All (IsWithin n) form'.files
            → All (IsWithin n) (files_of (read_fields n form' parts)))
        → All
            (IsWithin n)
            (files_of (elim r [ err e ↦ err e | ok form' ↦ read_fields n form' parts ]))
    after_part (err e) k rest = tt
    after_part (ok form') k rest = rest form' k

-- However the parts of a request are ordered, all files of the form that is read are within the
-- limit for uploads.
pub uploads_are_bounded :
    (n : ℕ) (parts : List Field) (form : Form)
    → read_fields n empty_form parts ≡ ok form
    → All (IsWithin n) form.files
uploads_are_bounded n parts form h =
    subst (λ r. All (IsWithin n) (files_of r)) h (read_fields-IsWithin n empty_form parts tt)

module _ ⦃b : Blobs⦄ ⦃p : Platform⦄ ⦃k : Kms⦄ ⦃x : Codecs⦄ where
  transform_fails :
      (now limit pid : ℕ) (vault : Vault) (letter : Letter) (name mime : String) (bytes : Bytes)
      (files : List (String × String × Bytes)) (e : TransformError) (w : World)
      → apply default_pipeline bytes mime limit ≡ err e
      → seal_files now limit pid vault letter ((name, mime, bytes) ∷ files) w ≡ (err bad_request, w)
  unfolding seal_files seal_file
  transform_fails now limit pid vault letter name mime bytes files e w bad = rw bad refl

  -- An upload whose first file cannot be transformed is refused, and its letter is stored all the
  -- same, while no attachment is.
  pub failed_file_keeps_letter :
      (now limit pid : ℕ) (vault : Vault) (heading recipient name mime : String)
      (bytes nonce ciphertext : Bytes) (files : List (String × String × Bytes)) (form : Form)
      (mode : Option ReleaseMode) (e : TransformError) (w : World)
      → form.files ≡ (name, mime, bytes) ∷ files
      → apply default_pipeline bytes mime limit ≡ err e
      → k.seal w.drawn (bytes_of (unwrap_or form.body "")) ≡ some (nonce, ciphertext)
      → mode_value form.release_mode ≡ ok mode
      → first (letter_by_id (p.random (suc w.drawn))) w.db.letters ≡ none
      → let (r, w') = store_upload now limit pid vault heading recipient form w in
        (r ≡ err bad_request)
        × (l : Letter) × (fetch_letter (p.random (suc w.drawn)) w'.db ≡ ok l)
        × (l.ciphertext ≡ ciphertext)
        × (w'.db.attachments ≡ w.db.attachments)
  unfolding store_upload
  failed_file_keeps_letter now limit pid vault heading recipient name mime bytes nonce ciphertext
        files form mode e w given bad sealed valid fresh =
      let id = p.random (suc w.drawn) in
      let input : LetterSealInput = record {
        vault_id = vault.id;
        title = heading;
        recipient_email = recipient;
        ciphertext = ciphertext;
        nonce = nonce;
        drill_ciphertext = none;
        drill_nonce = none;
        scheduled_release_at = form.scheduled_release_at;
        kind = form.kind;
        release_mode = mode;
      } in
      let row = LetterQueries.seal_letter id now input w.db in
      let w₁ : World = record w { db = row.1; drawn = suc (suc w.drawn) } in
      let (same, _, _, no_file) = seal_letter_keeps id now input w.db in
      rw sealed (
        rw valid (
          rw given (
            rw (transform_fails now limit pid vault row.0 name mime bytes files e w₁ bad) (
              refl,
              row.0,
              fetch_letter-seal_letter id now input w.db fresh,
              same,
              no_file,
            ))))
