-- ===== src/Tests/ContentRuns.antt =====
-- Runs of the code on bytes: uploads, blobs, cryptography, rate limits and quotas.
use paschal.Base.{◌≡◌, refl, sym, ap, false, [], ◌∷◌, ◌++◌, none, some, ok, arith}
use paschal.Base.Bytes.{Bytes, bytes_eq}
use paschal.Transform.{Transformed}
use paschal.Transform.Text.{replace_crlf, replace_cr}
use paschal.Transform.Text.Newlines.{newlines, normalise_newlines}
use paschal.Blob.Local.{is_safe, get, put}
use paschal.Blob.Local.Separate.{put_keeps_others}
use paschal.Blob.Router.{Service, RegionRouter, put_routed, get_routed}
use paschal.Blob.Router.Contract.{routed_round_trip}
use paschal.Crypto.{seal, open_sealed}
use paschal.Crypto.Compare.{constant_time_eq, constant_time_eq-bytes_eq}
use paschal.Crypto.Sealing.{seal_round_trip}
use paschal.Tests.Fixtures.{plain_cipher-Decrypts, plain_cipher}

normalise_newlines_example :
    replace_cr (replace_crlf (b'a' ∷ b'\r' ∷ b'\n' ∷ b'\r' ∷ []))
    ≡ newlines false (b'a' ∷ b'\r' ∷ b'\n' ∷ b'\r' ∷ [])
normalise_newlines_example = normalise_newlines (b'a' ∷ b'\r' ∷ b'\n' ∷ b'\r' ∷ [])

constant_time_eq-bytes_eq_example :
    constant_time_eq (1 ∷ 2 ∷ []) (1 ∷ 3 ∷ []) ≡ bytes_eq (1 ∷ 2 ∷ []) (1 ∷ 3 ∷ [])
constant_time_eq-bytes_eq_example = constant_time_eq-bytes_eq (1 ∷ 2 ∷ []) (1 ∷ 3 ∷ [])

abbrev note : Transformed
note = record {
  bytes = b'h' ∷ b'i' ∷ [];
  mime = "text/plain";
  notes = "Stripped UTF-8 BOM if present" ∷ "Normalised line endings to LF" ∷ [];
  sha256_hex = "00";
}

abbrev greeting : Bytes
greeting = b'h' ∷ b'i' ∷ []

put_keeps_others_example :
    get (b'b' ∷ []) (put [] (b'a' ∷ []) (1 ∷ 2 ∷ []) []).1 ≡ get (b'b' ∷ []) []
unfolding is_safe
put_keeps_others_example =
    put_keeps_others [] (b'a' ∷ []) (1 ∷ 2 ∷ []) (b'b' ∷ []) [] (refl, tt) (refl, tt)
      (λ e. ground (arith, e))

-- The id of an encryption that adds nothing, with the key of a file.
abbrev key_file : Bytes
key_file =
    0 ∷ 1 ∷ 2 ∷ 3 ∷ 4 ∷ 5 ∷ 6 ∷ 7 ∷ 8 ∷ 9 ∷ 10 ∷ 11 ∷ 12 ∷ 13 ∷ 14 ∷ 15 ∷ 0 ∷ 1 ∷ 2 ∷ 3 ∷ 4 ∷ 5 ∷ 6
    ∷ 7 ∷ 8 ∷ 9 ∷ 10 ∷ 11 ∷ 12 ∷ 13 ∷ 14 ∷ 15 ∷ []

seal_round_trip_example :
    open_sealed ⦃c = plain_cipher⦄ []
      (record { nonce = 9 ∷ []; ciphertext = 9 ∷ 1 ∷ 2 ∷ [] })
      (some key_file)
    ≡ (ok (1 ∷ 2 ∷ []), some key_file)
unfolding seal
seal_round_trip_example =
    seal_round_trip ⦃c = plain_cipher⦄ plain_cipher-Decrypts key_file [] (9 ∷ []) (1 ∷ 2 ∷ [])
      (record { nonce = 9 ∷ []; ciphertext = 9 ∷ 1 ∷ 2 ∷ [] }) none refl refl

-- A service with one object.
abbrev one_object : Service
one_object = record {
  Objects = Bytes;
  put_object = λ bucket key kms bytes s. (ok tt, bytes);
  get_object = λ bucket key s. ok s;
  delete_object = λ bucket key s. (ok tt, []);
}

abbrev sydney : RegionRouter
sydney = record {
  stores =
      (b's' ∷ [], record { bucket = b'x' ∷ []; prefix = b'p' ∷ b'/' ∷ []; kms_key_id = none }) ∷ [];
  default_region = b's' ∷ [];
}

abbrev blob_key : Bytes
blob_key = b's' ∷ b':' ∷ b'i' ∷ []

routed_round_trip_example :
    (blob_key ≡ (b's' ∷ []) ++ (b':' ∷ b'i' ∷ []))
    × (get_routed ⦃service = one_object⦄ sydney blob_key (1 ∷ 2 ∷ []) ≡ ok (1 ∷ 2 ∷ []))
unfolding put_routed
routed_round_trip_example =
    routed_round_trip ⦃service = one_object⦄
      (λ bucket key kms bytes s s' h. ap ok (ap (λ r. r.1) (sym h))) sydney (b's' ∷ []) (b'i' ∷ [])
      (1 ∷ 2 ∷ []) blob_key [] (1 ∷ 2 ∷ []) ((λ e. ground (arith, e)), tt) refl
