-- ===== src/Routes/Letters/Keys.antt =====
-- crates/crypto-stub/src/lib.rs as the key service of the handlers of crates/beacon-api/src/routes.rs.
use paschal.Base.{ℕ, ◌≡◌, refl, ap, sym, ◌∙◌, true, ◌==◌, Option, none, some, Result, ok, err, length, arith, String, map_ok}
use paschal.Base.Bytes.{Bytes}
use paschal.Crypto.{CryptoError, Primitives, Sealed, aead_result, data_key, seal_with, seal, open_sealed}
use paschal.Crypto.Sealing.{Decrypts, seal_round_trip}
use paschal.Routes.Letters.{Kms}

abbrev sealed_pair : Result CryptoError Sealed → Option (Bytes × Bytes)
sealed_pair (ok sealed) = some (sealed.nonce, sealed.ciphertext)
sealed_pair (err e) = none

abbrev plaintext_of : Result CryptoError Bytes → Option Bytes
plaintext_of (ok body) = some body
plaintext_of (err e) = none

module _ ⦃c : Primitives⦄ (nonces : ℕ → Bytes) (key : Bytes) where
  -- The file of the key is there, with `key` in it; `nonces n` is the nonce that the n-th call draws.
  unfoldable pub operator_kms : Kms
  operator_kms = record {
    seal = λ n body. sealed_pair (seal key (nonces n) body (some key)).0;
    open_sealed = λ nonce ciphertext.
        plaintext_of
          (open_sealed key (record { nonce = nonce; ciphertext = ciphertext }) (some key)).0;
  }

  from_pair :
      (r : Result CryptoError Sealed) (n t : Bytes) → sealed_pair r ≡ some (n, t)
      → r ≡ ok (record { nonce = n; ciphertext = t })
  from_pair (ok sealed) n t h = ground (arith, h)
  from_pair (err e) n t h = absurd (ground (arith, h))

  file_kept :
      (nonce body : Bytes) → (length key == 32) ≡ true → (seal key nonce body (some key)).1 ≡ some key
  unfolding seal data_key
  file_kept nonce body long = rw long refl

  -- A key of 32 bytes opens what it sealed in any call.
  pub operator_kms-opens :
      Decrypts → length key ≡ 32
      → (call : ℕ) (body n t : Bytes) → operator_kms.seal call body ≡ some (n, t)
      → operator_kms.open_sealed n t ≡ some body
  unfolding operator_kms
  operator_kms-opens law long call body n t h =
      let sealed : Sealed = record { nonce = n; ciphertext = t } in
      let opened =
        seal_round_trip law key key (nonces call) body sealed (some key) long
          (from_pair (seal key (nonces call) body (some key)).0 n t h) in
      ap (λ file. plaintext_of (open_sealed key sealed file).0)
        (sym (file_kept (nonces call) body (ground (arith, long))))
      ∙ ap (λ r. plaintext_of r.0) opened

  nonce_of_result :
      (nonce n t : Bytes) (r : Result String Bytes)
      → sealed_pair (map_ok (λ ciphertext. record { nonce = nonce; ciphertext = ciphertext }) (aead_result r)) ≡ some (n, t)
      → n ≡ nonce
  nonce_of_result nonce n t (ok bytes) h = ground (arith, h)
  nonce_of_result nonce n t (err message) h = absurd (ground (arith, h))

  nonce_kept :
      (nonce body n t : Bytes) (raw : Result CryptoError Bytes)
      → sealed_pair (seal_with nonce body raw) ≡ some (n, t) → n ≡ nonce
  nonce_kept nonce body n t (err e) h = absurd (ground (arith, h))
  nonce_kept nonce body n t (ok raw) h = nonce_of_result nonce n t (c.encrypt raw nonce body) h

  -- The nonce that is stored is the one that the call drew.
  pub operator_kms-nonce :
      (call : ℕ) (body n t : Bytes) → operator_kms.seal call body ≡ some (n, t) → n ≡ nonces call
  unfolding operator_kms seal
  operator_kms-nonce call body n t h = nonce_kept (nonces call) body n t (data_key key (some key)).0 h
