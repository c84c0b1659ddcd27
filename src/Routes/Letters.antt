-- ===== src/Routes/Letters.antt =====
-- crates/beacon-api/src/routes.rs: the handlers of letters. Sealing and opening under the data key
-- (crates/crypto-stub/src/lib.rs) are an interface here; the blob store of attachments is left out.
pub mod Keys
pub mod Claiming
pub mod Limits
use paschal.Base.{
  ℕ, suc, ◌+◌, ◌*◌, String, Bool, true, false, not, ◌&&◌, ◌||◌, List, [], ◌∷◌, Option, none, some,
  Result, ok, err, ltb, ◌==◌, str_eq, if◌then◌else◌, any, is_none, length,
}
use mathlib.Core.Option
use paschal.Base.Bytes.{Bytes}
use paschal.Base.Text.{contains}
use paschal.Domain.VaultState
use paschal.Domain.VaultState.{active}
use paschal.Domain.Tier.{Tier, honest_operator, zero_knowledge}
use paschal.Domain.ReleaseMode.{ReleaseMode, from_db_str}
use paschal.Domain.SubscriptionState.{allows_authoring}
use paschal.Domain.Plans.{self_hosted, plan_features}
use paschal.Db.Tables.{Store, Vault, Letter, HeirEnvelope}
use paschal.Db.Vaults.{fetch_vault}
use paschal.Db.Letters as LetterQueries
use paschal.Db.Letters.{LetterSealInput, fetch_letter, fetch_letter_ciphertext, letter_count}
use paschal.Db.Envelopes.{get_zk_letter_heir_envelope}
use paschal.Db.Subscriptions.{fetch_subscription}
use paschal.Db.Releases.{append_transparency_entry, consume_release_claim}
use paschal.App.World.{
  World, Platform, Metrics, ApiError, bad_request, not_found, conflict, forbidden, internal, inc,
}
use paschal.App.Monad.{
  require, Api, ◌>>=◌, ◌>>◌, continue, pure, fail, ensure, ask, ask_result, exec, call, call_result,
  count, draw,
}
use paschal.Routes.Auth.{current_principal}
use paschal.Routes.Vaults.{owned_vault, require_ok, lift, as_u32, unwrap_or}

-- `crypto_stub::seal` and `open` under the data key of this deployment: the ciphertext with its
-- nonce, or none where they fail. Calls are numbered, as the random numbers are, since each draws a
-- nonce; Keys has the key service that Crypto gives.
pub record Kms : Type 0 where
  pub seal : ℕ → Bytes → Option (Bytes × Bytes)
  pub open_sealed : Bytes → Bytes → Option Bytes

abbrev pub one_of : List String → String → Bool
one_of texts s = any (str_eq s) texts

abbrev pub valid_letter_kinds : List String
valid_letter_kinds =
    "MESSAGE" ∷ "CREDENTIAL_BUNDLE" ∷ "FILE_ARCHIVE" ∷ "ACTION" ∷ "WILL_LOCATOR" ∷ "VIDEO_MESSAGE"
    ∷ "AUDIO_MESSAGE" ∷ "MEDIA_PLAYLIST" ∷ []

unfoldable pub validate_letter_kind : Option String → Result ApiError (Unit {0})
validate_letter_kind none = ok tt
validate_letter_kind (some kind) = if one_of valid_letter_kinds kind then ok tt else err bad_request

abbrev pub valid_release_modes : List String
valid_release_modes =
    "SIGNAL_OR_SCHEDULED" ∷ "SCHEDULED_ONLY" ∷ "SIGNAL_ONLY" ∷ "EVENT_ON_DEMAND" ∷ []

unfoldable pub validate_release_mode : Option String → Option ℕ → Result ApiError (Unit {0})
validate_release_mode mode scheduled_release_at =
    let given = unwrap_or mode "SIGNAL_OR_SCHEDULED" in
    if not (one_of valid_release_modes given)
    then err bad_request
    else if str_eq given "SCHEDULED_ONLY" && is_none scheduled_release_at
    then err bad_request
    else ok tt

-- The scheduled date is not before now and not beyond the plan's horizon.
unfoldable pub within_horizon : ℕ → ℕ → Option ℕ → Result ApiError (Unit {0})
within_horizon now days none = ok tt
within_horizon now days (some t) =
    if ltb t now
    then err bad_request
    else if ltb (now + days * 86400) t
    then err bad_request
    else ok tt

-- The column holds the text; the row of the model holds the value that the text names.
abbrev pub mode_value : Option String → Result ApiError (Option ReleaseMode)
mode_value none = ok none
mode_value (some s) = elim (from_db_str s) [ err e ↦ err bad_request | ok m ↦ ok (some m) ]

-- What a recipient receives: the letter's body, or the envelope for the heir.
pub data ClaimView : Type 0 where
  opened : String → String → Bytes → Bool → ClaimView
  for_heir : String → String → Bool → Option HeirEnvelope → ClaimView

-- The checks in front of the sealing.
unfoldable pub may_seal : ℕ → ℕ → Vault → Option ℕ → Option String → Option String → Api (Unit {0})
may_seal now pid vault scheduled kind mode = do
  lift (validate_letter_kind kind)
  lift (validate_release_mode mode scheduled)
  sub ← ask_result (fetch_subscription pid)
  ensure (allows_authoring sub.state) forbidden
  ensure (VaultState.eq vault.state active) conflict
  current_letters ← ask (letter_count vault.id)
  ensure (ltb (as_u32 current_letters) (plan_features self_hosted).max_letters_per_vault) forbidden
  lift (within_horizon now (plan_features self_hosted).scheduled_horizon_days scheduled)

module _ ⦃k : Kms⦄ where
  abbrev pub seal_body : Bytes → Api (Bytes × Bytes)
  seal_body body w = require internal (k.seal w.drawn body) (record w { drawn = suc w.drawn })

  -- `Option<Sealed>` of the drill body.
  unfoldable pub seal_drill : Option Bytes → Api (Option (Bytes × Bytes))
  seal_drill none = pure none
  seal_drill (some body) = do sealed ← seal_body body; pure (some sealed)

module _ ⦃p : Platform⦄ where
  -- What is stored once all checks have passed: the sealed body and drill body, and the log.
  unfoldable pub store_letter :
      ⦃k : Kms⦄
      → ℕ
      → ℕ
      → Vault
      → String
      → String
      → Bytes
      → Option Bytes
      → Option ℕ
      → Option String
      → Option String
      → Api Letter
  unfolding seal_drill
  store_letter now pid vault title recipient_email body drill_body scheduled kind mode = do
    sealed ← seal_body body
    drill_sealed ← seal_drill drill_body
    release_mode ← lift (mode_value mode)
    id ← draw
    letter ← call (
        LetterQueries.seal_letter id now (record {
          vault_id = vault.id;
          title = title;
          recipient_email = recipient_email;
          ciphertext = sealed.1;
          nonce = sealed.0;
          drill_ciphertext = Option.map (λ s. s.1) drill_sealed;
          drill_nonce = Option.map (λ s. s.0) drill_sealed;
          scheduled_release_at = scheduled;
          kind = kind;
          release_mode = release_mode;
        }))
    exec (append_transparency_entry "LETTER_SEALED" (some pid) (some vault.id))
    count (λ m. record m { letters_sealed_total = inc m.letters_sealed_total })
    pure letter

  unfoldable pub seal_letter :
      ⦃k : Kms⦄
      → ℕ
      → Option ℕ
      → ℕ
      → String
      → String
      → Bytes
      → Option Bytes
      → Option ℕ
      → Option String
      → Option String
      → Api Letter
  unfolding may_seal store_letter owned_vault
  seal_letter now headers vault_id title recipient_email body drill_body scheduled kind mode = do
    (pid, vault) ← owned_vault now headers vault_id
    may_seal now pid vault scheduled kind mode
    store_letter now pid vault title recipient_email body drill_body scheduled kind mode

  unfoldable pub list_letters : ℕ → Option ℕ → ℕ → Api (List Letter)
  unfolding owned_vault
  list_letters now headers vault_id = do
    (pid, vault) ← owned_vault now headers vault_id
    ask (LetterQueries.list_letters vault.id)

  unfoldable pub get_letter : ℕ → Option ℕ → ℕ → ℕ → Api Letter
  unfolding owned_vault
  get_letter now headers vault_id letter_id = do
    (pid, vault) ← owned_vault now headers vault_id
    letter ← ask_result (fetch_letter letter_id)
    ensure (letter.vault_id == vault_id) not_found
    pure letter

  unfoldable pub update_letter :
      ℕ → Option ℕ → ℕ → ℕ → String → String → Option ℕ → Option String → Option String → Api Letter
  unfolding owned_vault
  update_letter now headers vault_id letter_id title recipient_email scheduled mode kind = do
    (pid, vault) ← owned_vault now headers vault_id
    existing ← ask_result (fetch_letter letter_id)
    ensure (existing.vault_id == vault_id) not_found
    lift (validate_letter_kind (some (unwrap_or kind "MESSAGE")))
    lift (validate_release_mode (some (unwrap_or mode "SIGNAL_OR_SCHEDULED")) scheduled)
    ensure (contains b'@' recipient_email) bad_request
    release_mode ← require_ok bad_request (from_db_str (unwrap_or mode "SIGNAL_OR_SCHEDULED"))
    call_result (
        LetterQueries.update_letter_meta letter_id title recipient_email scheduled release_mode
          (unwrap_or kind "MESSAGE"))

  -- The text of a body that is no UTF-8 is left to the caller.
  unfoldable pub open_letter : ⦃k : Kms⦄ → ℕ → Bool → Api ClaimView
  open_letter ⦃k⦄ letter_id is_drill = do
    (title, rcpt, ciphertext, nonce) ← ask_result (fetch_letter_ciphertext letter_id is_drill)
    ensure (length nonce == 12) internal
    body ← require internal (k.open_sealed nonce ciphertext)
    pure (opened title rcpt body is_drill)

  unfoldable pub heir_view : ℕ → Letter → Bool → Api ClaimView
  heir_view letter_id letter is_drill = do
    heir ← ask (get_zk_letter_heir_envelope letter_id)
    pure (for_heir letter.title letter.recipient_email is_drill heir)

  abbrev pub view_for : ⦃k : Kms⦄ → Tier → ℕ → Letter → Bool → Api ClaimView
  view_for zero_knowledge letter_id letter is_drill = heir_view letter_id letter is_drill
  view_for honest_operator letter_id letter is_drill = open_letter letter_id is_drill

  unfoldable pub claim_release : ⦃k : Kms⦄ → ℕ → ℕ → Api ClaimView
  unfolding open_letter heir_view
  claim_release now token = do
    found ← call (consume_release_claim now (p.hash_token token))
    (letter_id, rcpt, is_drill) ← require not_found found
    letter ← ask_result (fetch_letter letter_id)
    vault ← ask_result (fetch_vault letter.vault_id)
    view_for vault.tier letter_id letter is_drill
