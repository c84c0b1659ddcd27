-- ===== src/Crypto/Sealing.antt =====
-- crates/crypto-stub/src/lib.rs: what was sealed is opened again.
use paschal.Base.{
  String, ◌≡◌, refl, inl, inr, Option, none, some, Result, ok, err, arith, length, ◌==◌, Bool-cases,
  map_ok,
}
use paschal.Base.Bytes.{Bytes}
use paschal.Crypto.{
  CryptoError, Primitives, Sealed, PassphraseSealed, aead_result, data_key, seal_with, seal,
  open_with, open_sealed, derive_kek, seal_with_passphrase, open_with_passphrase,
}

aead_result-ok {ℓ} :
    {A : Type ℓ} (f : Bytes → A) (a : A) (r : Result String Bytes)
    → map_ok f (aead_result r) ≡ ok a
    → (bytes : Bytes) × (r ≡ ok bytes) × (a ≡ f bytes)
aead_result-ok f a (ok bytes) h = (bytes, refl, ground arith)
aead_result-ok f a (err e) h = absurd (ground arith)

-- A later call gives the same key or the same error, and leaves the file.
data_key_stable :
    (random random' : Bytes) (file : Option Bytes)
    → length random ≡ 32
    → data_key random' (data_key random file).1 ≡ data_key random file
unfolding data_key
data_key_stable random random' none h = ground arith
data_key_stable random random' (some buf) h = elim (Bool-cases (length buf == 32)) [
  | inl e ↦ rw e (rw e refl)
  | inr e ↦ rw e (rw e refl)
]

module _ ⦃c : Primitives⦄ where
  -- The cipher decrypts, under the same key and nonce, what it encrypted.
  abbrev pub Decrypts : Type 0
  Decrypts =
      (key nonce plaintext ciphertext : Bytes)
      → c.encrypt key nonce plaintext ≡ ok ciphertext
      → c.decrypt key nonce ciphertext ≡ ok plaintext

  open_with-seal_with :
      Decrypts
      → (nonce plaintext : Bytes) (sealed : Sealed) (key : Result CryptoError Bytes)
      → seal_with nonce plaintext key ≡ ok sealed
      → open_with sealed key ≡ ok plaintext
  open_with-seal_with law nonce plaintext sealed (err e) h = absurd (ground arith)
  open_with-seal_with law nonce plaintext sealed (ok raw) h =
      let (ciphertext, done, same) =
        aead_result-ok (λ t. record { nonce = nonce; ciphertext = t }) sealed
          (c.encrypt raw nonce plaintext) h in
      rw same (rw (law raw nonce plaintext ciphertext done) refl)

  -- What was sealed under the data key is opened again, at any later call, also where the sealing
  -- was the first call and made the key: the file is not written again. A nonce and the random
  -- bytes of any later call do not matter.
  pub seal_round_trip :
      Decrypts
      → (random random' nonce plaintext : Bytes) (sealed : Sealed) (file : Option Bytes)
      → length random ≡ 32
      → let (result, file') = seal random nonce plaintext file in
        result ≡ ok sealed → open_sealed random' sealed file' ≡ (ok plaintext, file')
  unfolding seal open_sealed
  seal_round_trip law random random' nonce plaintext sealed file h k =
      rw (data_key_stable random random' file h)
        (rw (open_with-seal_with law nonce plaintext sealed (data_key random file).0 k) refl)

  -- What was sealed under a passphrase is opened with the passphrase.
  pub passphrase_round_trip :
      Decrypts
      → (salt nonce plaintext passphrase : Bytes) (sealed : PassphraseSealed)
      → seal_with_passphrase salt nonce plaintext passphrase ≡ ok sealed
      → (sealed.salt ≡ salt) × (open_with_passphrase sealed passphrase ≡ ok plaintext)
  unfolding seal_with_passphrase open_with_passphrase
  passphrase_round_trip law salt nonce plaintext passphrase sealed h =
      let kek = derive_kek passphrase salt in
      let (ciphertext, done, same) =
        aead_result-ok (λ t. record { salt = salt; nonce = nonce; ciphertext = t }) sealed
          (c.encrypt kek nonce plaintext) h in
      rw same (refl, rw (law kek nonce plaintext ciphertext done) refl)
