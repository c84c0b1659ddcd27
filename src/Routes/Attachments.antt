-- ===== src/Routes/Attachments.antt =====
-- crates/beacon-api/src/routes.rs: letters with uploaded files, and the claim of an attachment. The
-- blob store answers each call as it will: the calls are numbered, like the random numbers.
pub mod Upload
use paschal.Base.{
  ℕ, suc, ◌+◌, ◌%◌, ◌^◌, String, Bool, true, false, not, ◌&&◌, ◌||◌, List, [], ◌∷◌, ◌++◌, Option,
  none, some, Result, ok, err, ltb, leb, length, ◌==◌, if◌then◌else◌,
}
use paschal.Base.Bytes.{Bytes, bytes_of}
use paschal.Base.Text.{is_empty}
use paschal.Domain.VaultState
use paschal.Domain.VaultState.{active}
use paschal.Domain.StorageRegion.{as_aws_str}
use paschal.Domain.SubscriptionState.{allows_authoring}
use paschal.Domain.Plans.{self_hosted, plan_features, effective_storage_bytes}
use paschal.Transform.{Codecs, Transformed, TransformError, apply}
use paschal.Transform.Passes.{default_pipeline}
use paschal.Db.Tables.{Store, Vault, Letter, Attachment, Subscription}
use paschal.Db.Letters as LetterQueries
use paschal.Db.Letters.{letter_count}
use paschal.Db.Contacts.{storage_used, fetch_attachment, create_attachment}
use paschal.Db.Subscriptions.{fetch_subscription}
use paschal.Db.Releases.{append_transparency_entry, consume_attachment_claim}
use paschal.App.World.{
  World, Platform, Metrics, ApiError, bad_request, not_found, conflict, forbidden, internal, inc,
}
use paschal.App.Monad.{
  Api, ◌>>=◌, ◌>>◌, continue, pure, ensure, require, ask, ask_result, exec, call, count, draw,
}
use paschal.Routes.Vaults.{owned_vault, as_u32, unwrap_or, lift, require_ok}
use paschal.Routes.Letters.{
  Kms, validate_letter_kind, validate_release_mode, within_horizon, mode_value, seal_body,
}

-- The answer of the n-th call: the bytes under a key, the key of new bytes in a region, none where
-- the store fails.
pub record Blobs : Type 0 where
  pub get : ℕ → String → Option Bytes
  pub put : ℕ → String → Bytes → Option String

-- A part of the request; one whose content cannot be read is `broken`.
pub data Field : Type 0 where
  title recipient_email body kind category release_mode : String → Field
  scheduled_release_at : ℕ → Field
  file : String → String → Bytes → Field
  unknown broken : Field

-- What the parts say so far.
pub record Form : Type 0 where
  pub title : Option String
  pub recipient_email : Option String
  pub body : Option String
  pub kind : Option String
  pub release_mode : Option String
  pub scheduled_release_at : Option ℕ
  pub files : List (String × String × Bytes)

abbrev pub empty_form : Form
empty_form = record {
  title = none;
  recipient_email = none;
  body = none;
  kind = none;
  release_mode = none;
  scheduled_release_at = none;
  files = [];
}

-- One round of the loop over the parts.
unfoldable pub read_field : ℕ → Form → Field → Result ApiError Form
read_field max_upload form (Field.title s) = ok (record form { title = some s })
read_field max_upload form (Field.recipient_email s) = ok (record form { recipient_email = some s })
read_field max_upload form (Field.body s) = ok (record form { body = some s })
read_field max_upload form (Field.kind s) = ok (record form { kind = some s })
read_field max_upload form (Field.category s) = ok form
read_field max_upload form (Field.release_mode s) = ok (record form { release_mode = some s })
read_field max_upload form (Field.scheduled_release_at t) =
    ok (record form { scheduled_release_at = some t })
read_field max_upload form (Field.file name mime bytes) =
    if ltb max_upload (length bytes)
    then err bad_request
    else ok (record form { files = form.files ++ (name, mime, bytes) ∷ [] })
read_field max_upload form Field.unknown = ok form
read_field max_upload form Field.broken = err bad_request

unfoldable pub read_fields : ℕ → Form → List Field → Result ApiError Form
unfolding read_field
read_fields max_upload form [] = ok form
read_fields max_upload form (part ∷ parts) = elim (read_field max_upload form part) [
  | err e ↦ err e
  | ok form' ↦ read_fields max_upload form' parts
]

unfoldable pub upload_total : List (String × String × Bytes) → ℕ
upload_total [] = 0
upload_total ((name, mime, bytes) ∷ files) = length bytes + upload_total files

abbrev pub has_files : List (String × String × Bytes) → Bool
has_files [] = false
has_files (f ∷ files) = true

abbrev pub may_name : ℕ → Bool
may_name c =
    (leb b'0' c && leb c b'9')
    || (leb b'A' c && leb c b'Z')
    || (leb b'a' c && leb c b'z')
    || (c == b'.')
    || (c == b'-')
    || (c == b'_')

-- The filter on the characters is one on the bytes: a character outside ASCII has no ASCII byte.
unfoldable pub safe_filename : Bytes → Bytes
safe_filename [] = []
safe_filename (c ∷ s) = let rest = safe_filename s in if may_name c then c ∷ rest else rest

-- `fetch_add(n)` wraps, and so does the sum of two u64.
abbrev pub wrapping_add : ℕ → ℕ → ℕ
wrapping_add a b = (a + b) % 2 ^ 64

-- The counts that the plan bounds.
unfoldable pub within_quota :
    ℕ → Vault → Subscription → List (String × String × Bytes) → Api (Unit {0})
within_quota pid vault sub files = do
  current_letters ← ask (letter_count vault.id)
  ensure (ltb (as_u32 current_letters) (plan_features self_hosted).max_letters_per_vault) forbidden
  current_storage ← ask (storage_used pid)
  ensure
      (not (
        ltb (effective_storage_bytes self_hosted sub.extra_storage_bytes)
          (wrapping_add current_storage (upload_total files))))
      forbidden

module _ ⦃b : Blobs⦄ where
  abbrev pub blob_get : String → Api Bytes
  blob_get key w = require internal (b.get w.drawn key) (record w { drawn = suc w.drawn })

  abbrev pub blob_put : String → Bytes → Api String
  blob_put region bytes w =
      require internal (b.put w.drawn region bytes) (record w { drawn = suc w.drawn })

  module _ ⦃p : Platform⦄ ⦃k : Kms⦄ where
    -- One file: transformed, sealed, stored, and its row written.
    unfoldable pub seal_file :
        ⦃x : Codecs⦄ → ℕ → ℕ → ℕ → Vault → Letter → String × String × Bytes → Api Attachment
    seal_file now max_upload pid vault letter (filename, original_mime, bytes) = do
      transformed ← require_ok bad_request (apply default_pipeline bytes original_mime max_upload)
      sealed ← seal_body transformed.bytes
      storage_key ← blob_put (as_aws_str vault.storage_region) sealed.1
      id ← draw
      attachment ← call (
          create_attachment (record {
            id = id;
            letter_id = letter.id;
            original_filename = filename;
            transformed_size = length transformed.bytes;
            storage_key = storage_key;
            nonce = sealed.0;
            sealed_at = now;
          }))
      exec (append_transparency_entry "ATTACHMENT_SEALED" (some pid) (some vault.id))
      count (λ m. record m {
        attachments_sealed_total = inc m.attachments_sealed_total;
        attachments_bytes_total =
            wrapping_add m.attachments_bytes_total attachment.transformed_size;
      })
      pure attachment

    unfoldable pub seal_files :
        ⦃x : Codecs⦄
        → ℕ
        → ℕ
        → ℕ
        → Vault
        → Letter
        → List (String × String × Bytes)
        → Api (List Attachment)
    unfolding seal_file
    seal_files now max_upload pid vault letter [] = pure []
    seal_files now max_upload pid vault letter (f ∷ files) = do
      attachment ← seal_file now max_upload pid vault letter f
      attachments ← seal_files now max_upload pid vault letter files
      pure (attachment ∷ attachments)

    -- What is stored once all checks have passed: the letter, then its files.
    unfoldable pub store_upload :
        ⦃x : Codecs⦄ → ℕ → ℕ → ℕ → Vault → String → String → Form → Api (Letter × List Attachment)
    unfolding seal_files
    store_upload now max_upload pid vault heading recipient form = do
      sealed ← seal_body (bytes_of (unwrap_or form.body ""))
      mode ← lift (mode_value form.release_mode)
      id ← draw
      letter ← call (
          LetterQueries.seal_letter id now (record {
            vault_id = vault.id;
            title = heading;
            recipient_email = recipient;
            ciphertext = sealed.1;
            nonce = sealed.0;
            drill_ciphertext = none;
            drill_nonce = none;
            scheduled_release_at = form.scheduled_release_at;
            kind = form.kind;
            release_mode = mode;
          }))
      attachments ← seal_files now max_upload pid vault letter form.files
      count (λ m. record m { letters_sealed_total = inc m.letters_sealed_total })
      exec (append_transparency_entry "LETTER_SEALED" (some pid) (some vault.id))
      pure (letter, attachments)

    unfoldable pub seal_letter_multipart :
        ⦃x : Codecs⦄ → ℕ → ℕ → Option ℕ → ℕ → List Field → Api (Letter × List Attachment)
    unfolding owned_vault read_fields within_quota store_upload
    seal_letter_multipart now max_upload headers vault_id multipart = do
      (pid, vault) ← owned_vault now headers vault_id
      sub ← ask_result (fetch_subscription pid)
      ensure (allows_authoring sub.state) forbidden
      ensure (VaultState.eq vault.state active) conflict
      form ← lift (read_fields max_upload empty_form multipart)
      heading ← require bad_request form.title
      recipient ← require bad_request form.recipient_email
      ensure (not (is_empty (unwrap_or form.body "")) || has_files form.files) bad_request
      within_quota pid vault sub form.files
      lift (validate_letter_kind form.kind)
      lift (validate_release_mode form.release_mode form.scheduled_release_at)
      lift (
          within_horizon now (plan_features self_hosted).scheduled_horizon_days
            form.scheduled_release_at)
      store_upload now max_upload pid vault heading recipient form

    -- The name of the file as the header states it, and its content.
    unfoldable pub claim_attachment : ℕ → ℕ → Api (Bytes × Bytes)
    unfolding safe_filename
    claim_attachment now token = do
      found ← call (consume_attachment_claim now (p.hash_token token))
      (attachment_id, rcpt, is_drill) ← require not_found found
      (attachment, nonce) ← ask_result (fetch_attachment attachment_id)
      ciphertext ← blob_get attachment.storage_key
      ensure (length nonce == 12) internal
      plaintext ← require internal (k.open_sealed nonce ciphertext)
      pure (safe_filename (bytes_of attachment.original_filename), plaintext)
