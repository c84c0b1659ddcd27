-- ===== src/Crypto.antt =====
-- crates/crypto-stub/src/lib.rs: the data key, sealing under it and under a passphrase, tokens.
-- The cipher AES-256-GCM, SHA-256 and the two encodings are parameters. Errors of the file system
-- are not modelled.
pub mod Sealing
pub mod Compare
use paschal.Base.{
  ℕ, String, Bool, List, [], ◌∷◌, ◌++◌, Option, none, some, Result, ok, err, map_ok, and_then,
  length, ◌==◌, if◌then◌else◌,
}
use paschal.Base.Bytes.{Bytes, bytes_of}

pub data CryptoError : Type 0 where
  aead : String → CryptoError
  kms_key_length : ℕ → CryptoError
  invalid_ciphertext : CryptoError

-- `encrypt key nonce plaintext`, `decrypt key nonce ciphertext`, `sha256 bytes`, and the encodings
-- in base64 for URLs and in hexadecimal.
pub record Primitives : Type 0 where
  pub encrypt : Bytes → Bytes → Bytes → Result String Bytes
  pub decrypt : Bytes → Bytes → Bytes → Result String Bytes
  pub sha256 : Bytes → Bytes
  pub base64 : Bytes → Bytes
  pub hex : Bytes → Bytes

pub record Sealed : Type 0 where
  pub nonce : Bytes
  pub ciphertext : Bytes

pub record PassphraseSealed : Type 0 where
  pub salt : Bytes
  pub nonce : Bytes
  pub ciphertext : Bytes

-- `From<aes_gcm::Error>`.
abbrev pub aead_result : Result String Bytes → Result CryptoError Bytes
aead_result (ok bytes) = ok bytes
aead_result (err message) = err (aead message)

-- The file of the key, none if there is no such file. Where it is missing, the fresh random bytes
-- become the key and are written.
unfoldable pub data_key : Bytes → Option Bytes → Result CryptoError Bytes × Option Bytes
data_key random none = (ok random, some random)
data_key random (some buf) =
    if length buf == 32 then (ok buf, some buf) else (err (kms_key_length (length buf)), some buf)

module _ ⦃c : Primitives⦄ where
  abbrev pub seal_with : Bytes → Bytes → Result CryptoError Bytes → Result CryptoError Sealed
  seal_with nonce plaintext key = and_then key λ raw.
      map_ok (λ ciphertext. record { nonce = nonce; ciphertext = ciphertext })
        (aead_result (c.encrypt raw nonce plaintext))

  unfoldable pub seal :
      Bytes → Bytes → Bytes → Option Bytes → Result CryptoError Sealed × Option Bytes
  unfolding data_key
  seal random nonce plaintext file =
      let (key, file') = data_key random file in (seal_with nonce plaintext key, file')

  abbrev pub open_with : Sealed → Result CryptoError Bytes → Result CryptoError Bytes
  open_with sealed key =
      and_then key λ raw. aead_result (c.decrypt raw sealed.nonce sealed.ciphertext)

  unfoldable pub open_sealed :
      Bytes → Sealed → Option Bytes → Result CryptoError Bytes × Option Bytes
  unfolding data_key
  open_sealed random sealed file =
      let (key, file') = data_key random file in (open_with sealed key, file')

  unfoldable pub derive_kek : Bytes → Bytes → Bytes
  derive_kek passphrase salt = c.sha256 (bytes_of "paschal/passphrase-kek/v1" ++ salt ++ passphrase)

  -- The salt and the nonce are random.
  unfoldable pub seal_with_passphrase :
      Bytes → Bytes → Bytes → Bytes → Result CryptoError PassphraseSealed
  unfolding derive_kek
  seal_with_passphrase salt nonce plaintext passphrase =
      map_ok (λ ciphertext. record { salt = salt; nonce = nonce; ciphertext = ciphertext })
        (aead_result (c.encrypt (derive_kek passphrase salt) nonce plaintext))

  unfoldable pub open_with_passphrase : PassphraseSealed → Bytes → Result CryptoError Bytes
  unfolding derive_kek
  open_with_passphrase sealed passphrase =
      aead_result (c.decrypt (derive_kek passphrase sealed.salt) sealed.nonce sealed.ciphertext)

  unfoldable pub random_token : Bytes → Bytes
  random_token random = c.base64 random

  unfoldable pub hash_token : Bytes → Bytes
  hash_token token = c.sha256 token

  unfoldable pub hash_bytes : Bytes → Bytes
  hash_bytes bytes = c.sha256 bytes

  unfoldable pub hash_passphrase : Bytes → Bytes → Bytes
  hash_passphrase passphrase salt = c.hex (c.sha256 (salt ++ passphrase))
