-- ===== src/Routes/Private.antt =====
-- crates/beacon-api/src/routes.rs: the letters of zero-knowledge vaults, whose bodies arrive
-- encrypted. Bytes of a request are given after their decoding, none where it fails.
pub mod Heir
use paschal.Base.{
  ℕ, String, Bool, true, false, not, List, [], ◌∷◌, Option, none, some, Result, ok, err, ltb,
  length, ◌==◌, str_eq, if◌then◌else◌,
}
use paschal.Base.Bytes.{Bytes}
use paschal.Domain.ReleaseMode.{ReleaseMode}
use paschal.Domain.Tier
use paschal.Domain.Tier.{zero_knowledge}
use paschal.Db.Tables.{Store, Vault, Letter, HeirEnvelope}
use paschal.Db.Letters as LetterQueries
use paschal.Db.Letters.{LetterSealInput, fetch_letter}
use paschal.Db.Envelopes.{upsert_zk_letter_heir_envelope}
use paschal.Db.Releases.{append_transparency_entry}
use paschal.App.World.{World, Platform, Metrics, bad_request, not_found, conflict, inc, heir_share}
use paschal.App.Monad.{
  Api, ◌>>=◌, ◌>>◌, continue, pure, fail, ensure, require, ask_result, exec, call, count, notify,
  draw,
}
use paschal.Routes.Vaults.{owned_vault, unwrap_or, lift}
use paschal.Routes.Letters.{may_seal, mode_value}

-- The heir's part of the request.
pub record HeirReq : Type 0 where
  pub ciphertext : Option (Option Bytes)
  pub nonce : Option (Option Bytes)
  pub mode : Option String
  pub salt : Option (Option Bytes)
  pub release_secret : Option (Option Bytes)
  pub recipient_share : Option String

pub record SealZkLetterReq : Type 0 where
  pub title : String
  pub recipient_email : String
  pub ciphertext : Option Bytes
  pub nonce : Option Bytes
  pub scheduled_release_at : Option ℕ
  pub kind : Option String
  pub release_mode : Option String
  pub heir : HeirReq

abbrev pub envelope_of : ℕ → ℕ → Bytes → Bytes → String → Option Bytes → Option Bytes → HeirEnvelope
envelope_of now letter_id ciphertext nonce mode salt release_secret = record {
  letter_id = letter_id;
  ciphertext = ciphertext;
  nonce = nonce;
  mode = mode;
  salt = salt;
  release_secret = release_secret;
  created_at = now;
}

-- A field that has to be there, and to decode.
abbrev pub field : Option (Option Bytes) → Api Bytes
field given = require bad_request given >>= require bad_request

unfoldable pub store_manual : ℕ → ℕ → Bytes → Bytes → HeirReq → Api (Unit {0})
store_manual now letter_id ciphertext nonce heir = do
  salt ← field heir.salt
  exec (
      upsert_zk_letter_heir_envelope
        (envelope_of now letter_id ciphertext nonce "manual" (some salt) none))

-- Only the operator's half is stored; the recipient's half is mailed.
unfoldable pub store_split : ℕ → ℕ → String → Bytes → Bytes → HeirReq → Api (Unit {0})
store_split now letter_id recipient_email ciphertext nonce heir = do
  op_share ← field heir.release_secret
  rcpt_share ← require bad_request heir.recipient_share
  exec (
      upsert_zk_letter_heir_envelope
        (envelope_of now letter_id ciphertext nonce "split" none (some op_share)))
  notify heir_share recipient_email

unfoldable pub store_operator : ℕ → ℕ → Bytes → Bytes → HeirReq → Api (Unit {0})
store_operator now letter_id ciphertext nonce heir = do
  key ← field heir.release_secret
  exec (
      upsert_zk_letter_heir_envelope
        (envelope_of now letter_id ciphertext nonce "operator" none (some key)))

unfoldable pub store_by_mode : ℕ → ℕ → String → Bytes → Bytes → HeirReq → Api (Unit {0})
unfolding store_manual store_split store_operator
store_by_mode now letter_id recipient_email ciphertext nonce heir =
    let mode = unwrap_or heir.mode "manual" in
    if str_eq mode "manual"
    then store_manual now letter_id ciphertext nonce heir
    else if str_eq mode "split"
    then store_split now letter_id recipient_email ciphertext nonce heir
    else if str_eq mode "operator"
    then store_operator now letter_id ciphertext nonce heir
    else fail bad_request

-- Whether an envelope was stored.
unfoldable pub store_heir :
    ℕ → ℕ → String → HeirReq → Option (Option Bytes) → Option (Option Bytes) → Api Bool
unfolding store_by_mode
store_heir now letter_id recipient_email heir (some hc) (some hn) = do
  ciphertext ← require bad_request hc
  nonce ← require bad_request hn
  ensure (length nonce == 12) bad_request
  store_by_mode now letter_id recipient_email ciphertext nonce heir
  pure true
store_heir now letter_id recipient_email heir hc hn = pure false

-- The row of the letter: the ciphertext as it came, no drill body.
abbrev pub seal_input : ℕ → SealZkLetterReq → Bytes → Bytes → Option ReleaseMode → LetterSealInput
seal_input vault_id body ciphertext nonce mode = record {
  vault_id = vault_id;
  title = body.title;
  recipient_email = body.recipient_email;
  ciphertext = ciphertext;
  nonce = nonce;
  drill_ciphertext = none;
  drill_nonce = none;
  scheduled_release_at = body.scheduled_release_at;
  kind = body.kind;
  release_mode = mode;
}

module _ ⦃p : Platform⦄ where
  -- Once the checks have passed: the row, the envelope, the log.
  unfoldable pub store_zk_letter : ℕ → ℕ → Vault → SealZkLetterReq → Bytes → Bytes → Api Letter
  unfolding store_heir
  store_zk_letter now pid vault body ciphertext nonce = do
    mode ← lift (mode_value body.release_mode)
    id ← draw
    letter ←
        call (LetterQueries.seal_letter id now (seal_input vault.id body ciphertext nonce mode))
    has_heir ←
        store_heir now letter.id body.recipient_email body.heir body.heir.ciphertext body.heir.nonce
    exec (append_transparency_entry "LETTER_SEALED" (some pid) (some vault.id))
    count (λ m. record m { letters_sealed_total = inc m.letters_sealed_total })
    pure letter

  unfoldable pub seal_zk_letter : ℕ → Option ℕ → ℕ → SealZkLetterReq → Api Letter
  unfolding may_seal store_zk_letter owned_vault
  seal_zk_letter now headers vault_id body = do
    (pid, vault) ← owned_vault now headers vault_id
    ensure (Tier.eq vault.tier zero_knowledge) bad_request
    may_seal now pid vault body.scheduled_release_at body.kind body.release_mode
    ciphertext ← require bad_request body.ciphertext
    nonce ← require bad_request body.nonce
    ensure (ltb 0 (length ciphertext)) bad_request
    ensure (length nonce == 12) bad_request
    store_zk_letter now pid vault body ciphertext nonce

  unfoldable pub get_zk_letter_ciphertext : ℕ → Option ℕ → ℕ → ℕ → Api (List ℕ × List ℕ)
  unfolding owned_vault
  get_zk_letter_ciphertext now headers vault_id letter_id = do
    (pid, vault) ← owned_vault now headers vault_id
    ensure (Tier.eq vault.tier zero_knowledge) bad_request
    letter ← ask_result (fetch_letter letter_id)
    ensure (letter.vault_id == vault.id) not_found
    ensure (ltb 0 (length letter.ciphertext)) conflict
    pure (letter.ciphertext, letter.nonce)
