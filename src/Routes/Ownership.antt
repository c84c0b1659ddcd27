-- ===== src/Routes/Ownership.antt =====
-- crates/beacon-api/src/routes.rs and passkey.rs: what a signed-in principal gets for the vault of
-- another.
use paschal.Base.{ℕ, String, Bool, ◌≡◌, List, Option, err, ℤ}
use paschal.Base.Bytes.{Bytes}
use paschal.Base.Float.{Float32}
use paschal.Transform.{Codecs}
use paschal.App.World.{World, Platform, not_found}
use paschal.App.Monad.{Api}
use paschal.Routes.Releases.{force_release, cancel_release, run_drill}
use paschal.Routes.Vaults.{
  get_vault, update_vault, create_vault_contact, update_vault_contact, delete_vault_contact,
}
use paschal.Routes.Letters.{Kms, seal_letter, list_letters, get_letter, update_letter}
use paschal.Routes.Signals.{upsert_signal_subscription}
use paschal.Routes.Usage.{list_signal_subscriptions, list_vault_contacts}
use paschal.Routes.Private.{SealZkLetterReq, seal_zk_letter, get_zk_letter_ciphertext}
use paschal.Routes.Attachments.{Blobs, Field, seal_letter_multipart}
use paschal.Routes.Recovery.{
  store_vault_prk_envelope, get_vault_prk_envelope, store_zk_envelope, get_zk_envelopes,
}

-- A handler answers 404 and changes nothing.
abbrev pub IsHidden : {A : Type 0} → Api A → World → Type 0
IsHidden m w = m w ≡ (err not_found, w)

-- What a request may say besides the vault.
pub record Request : Type 0 where
  pub letter_id : ℕ
  pub contact_id : ℕ
  pub passkey_id : ℕ
  pub max_upload : ℕ
  pub title : String
  pub email : String
  pub source : String
  pub body : Bytes
  pub drill_body : Option Bytes
  pub seconds : Option ℤ
  pub birthday : Option ℕ
  pub note : Option String
  pub scheduled : Option ℕ
  pub kind : Option String
  pub mode : Option String
  pub weight : Option ℕ
  pub enabled : Option Bool
  pub multipart : List Field
  pub private_letter : SealZkLetterReq
  pub ciphertext : Option Bytes
  pub nonce : Option Bytes
  pub recovery_ciphertext : Option (Option Bytes)
  pub recovery_nonce : Option (Option Bytes)
  pub recovery_salt : Option (Option Bytes)

module _ ⦃p : Platform⦄ ⦃k : Kms⦄ ⦃f : Float32⦄ ⦃b : Blobs⦄ ⦃x : Codecs⦄ (now : ℕ)
    (headers : Option ℕ) (vault_id : ℕ) (w : World) where
  -- Of the vault, its contacts and its signals; its letters; its release; its envelopes.
  abbrev pub HidesSettings : Request → Type 0
  HidesSettings r =
      IsHidden (get_vault now headers vault_id) w
      × IsHidden (update_vault now headers vault_id r.title r.seconds) w
      × IsHidden (list_vault_contacts now headers vault_id) w
      × IsHidden (create_vault_contact now headers vault_id r.title r.email r.birthday r.note) w
      × IsHidden (update_vault_contact now headers vault_id r.contact_id r.title r.email r.birthday r.note) w
      × IsHidden (delete_vault_contact now headers vault_id r.contact_id) w
      × IsHidden (list_signal_subscriptions now headers vault_id) w
      × IsHidden (upsert_signal_subscription now headers vault_id r.source r.weight r.enabled) w

  abbrev pub HidesLetters : Request → Type 0
  HidesLetters r =
      IsHidden (seal_letter now headers vault_id r.title r.email r.body r.drill_body r.scheduled r.kind r.mode) w
      × IsHidden (seal_letter_multipart now r.max_upload headers vault_id r.multipart) w
      × IsHidden (seal_zk_letter now headers vault_id r.private_letter) w
      × IsHidden (get_zk_letter_ciphertext now headers vault_id r.letter_id) w
      × IsHidden (list_letters now headers vault_id) w
      × IsHidden (get_letter now headers vault_id r.letter_id) w
      × IsHidden (update_letter now headers vault_id r.letter_id r.title r.email r.scheduled r.mode r.kind) w

  abbrev pub HidesRelease : Type 0
  HidesRelease =
      IsHidden (force_release now headers vault_id) w
      × IsHidden (cancel_release now headers vault_id) w
      × IsHidden (run_drill now headers vault_id) w

  abbrev pub HidesEnvelopes : Request → Type 0
  HidesEnvelopes r =
      IsHidden (store_vault_prk_envelope now headers vault_id r.ciphertext r.nonce) w
      × IsHidden (get_vault_prk_envelope now headers vault_id) w
      × IsHidden
          (store_zk_envelope now headers vault_id r.passkey_id r.ciphertext r.nonce r.recovery_ciphertext r.recovery_nonce r.recovery_salt)
          w
      × IsHidden (get_zk_envelopes now headers vault_id) w
