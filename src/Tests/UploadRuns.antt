-- ===== src/Tests/UploadRuns.antt =====
-- Runs of uploads, of zero-knowledge letters and of the aggregator's observations.
use paschal.Base.{ℕ, ◌≡◌, ◌≢◌, refl, true, List, [], ◌∷◌, none, some, ok, err, All, map, pos, arith}
use paschal.Base.Bytes.{Bytes, bytes_of}
use paschal.Domain.VaultState.{active, cooling_off}
use paschal.Domain.SignalSource.{heartbeat, buddy_attestation}
use paschal.Transform.{TransformError, apply}
use paschal.Db.Sql.{first}
use paschal.Db.Tables.{Letter}
use paschal.Db.Tables.Presence.{SignalSubscription}
use paschal.Db.Letters.{fetch_letter}
use paschal.App.World.{World, bad_request}
use paschal.Scheduler.Evaluate.{ticks}
use paschal.Scheduler.Observe.Silence.{Reading, score_of, without_bank_never_released}
use paschal.Routes.Attachments.{Field, Form, empty_form, read_fields, store_upload}
use paschal.Routes.Attachments.Upload.{IsWithin, uploads_are_bounded, failed_file_keeps_letter}
use paschal.Routes.Private.{SealZkLetterReq, store_zk_letter}
use paschal.Routes.Private.Heir.{refused_heir_keeps_letter}
use paschal.Tests.Fixtures.{shelf, 
  fixed_point, counter, estate, world_with, vault_in, mirror, codecs, twelve,
}

abbrev photo_bytes : Bytes
photo_bytes = 1 ∷ 2 ∷ 3 ∷ []

abbrev parts : List Field
parts =
    Field.title "Farewell"
    ∷ Field.file "a.txt" "text/plain" photo_bytes
    ∷ Field.recipient_email "bob@example.org"
    ∷ Field.unknown
    ∷ []

abbrev read_form : Form
read_form = record empty_form {
  title = some "Farewell";
  recipient_email = some "bob@example.org";
  files = ("a.txt", "text/plain", photo_bytes) ∷ [];
}

uploads_are_bounded_example : All (IsWithin 3) read_form.files
unfolding read_fields
uploads_are_bounded_example = uploads_are_bounded 3 parts read_form refl

-- The form of a browser whose user chose no file: the part is there, without content.
abbrev empty_file_form : Form
empty_file_form = record read_form {
  body = some "Dear Bob";
  files = ("unnamed", "application/octet-stream", []) ∷ [];
}

abbrev at_home : World
at_home = world_with (estate active)

failed_file_keeps_letter_example :
    let (r, w') =
      store_upload ⦃b = shelf⦄ ⦃p = counter⦄ ⦃k = mirror⦄ ⦃x = codecs⦄ 100 1000 7
        (vault_in active)
        "Farewell"
        "bob@example.org"
        empty_file_form
        at_home in
    (r ≡ err bad_request)
    × (l : Letter) × (fetch_letter 501 w'.db ≡ ok l)
    × (l.ciphertext ≡ bytes_of "Dear Bob")
    × (w'.db.attachments ≡ at_home.db.attachments)
unfolding apply first
failed_file_keeps_letter_example =
    failed_file_keeps_letter ⦃b = shelf⦄ ⦃p = counter⦄ ⦃k = mirror⦄ ⦃x = codecs⦄ 100 1000 7
      (vault_in active) "Farewell" "bob@example.org" "unnamed" "application/octet-stream" [] twelve
      (bytes_of "Dear Bob") [] empty_file_form none TransformError.empty at_home refl refl refl refl
      refl

abbrev request : SealZkLetterReq
request = record {
  title = "Farewell";
  recipient_email = "bob@example.org";
  ciphertext = some photo_bytes;
  nonce = some twelve;
  scheduled_release_at = none;
  kind = none;
  release_mode = none;
  heir = record {
    ciphertext = some (some photo_bytes);
    nonce = some (some twelve);
    mode = some "paper";
    salt = none;
    release_secret = none;
    recipient_share = none;
  };
}

refused_heir_keeps_letter_example :
    let (r, w') =
      store_zk_letter ⦃p = counter⦄ 100 7 (vault_in active) request photo_bytes twelve at_home in
    (r ≡ err bad_request)
    × (l : Letter) × (fetch_letter 500 w'.db ≡ ok l)
    × (l.ciphertext ≡ photo_bytes)
    × (w'.db.heir_envelopes ≡ at_home.db.heir_envelopes)
unfolding first
refused_heir_keeps_letter_example =
    refused_heir_keeps_letter ⦃p = counter⦄ 100 7 (vault_in active) request photo_bytes twelve
      photo_bytes twelve "paper" none at_home refl refl refl refl refl refl refl refl refl

-- Two rounds, a year apart, on a vault that is watched for a heartbeat.
abbrev watched : SignalSubscription
watched = record { id = 80; vault_id = 1; source = heartbeat; weight = 100; enabled = true }

abbrev reading : ℕ → Reading ⦃f = fixed_point⦄
reading now = (now, vault_in active, record (estate active) { signal_subscriptions = watched ∷ [] })

abbrev readings : List (Reading ⦃f = fixed_point⦄)
readings = reading 40000000 ∷ reading 70000000 ∷ []

without_bank_never_released_example :
    ticks ⦃f = fixed_point⦄ active 60 3 (map (score_of ⦃f = fixed_point⦄ (pos 604800)) readings)
    ≢ cooling_off
unfolding paschal.Scheduler.Observe.weight_for first paschal.Db.Presence.list_signal_subscriptions
    paschal.Db.Sql.select paschal.Domain.SignalSource.as_db_str
without_bank_never_released_example =
    without_bank_never_released ⦃f = fixed_point⦄ (pos 604800) 60 3 readings (omega arith)
      (refl, (refl, tt))
