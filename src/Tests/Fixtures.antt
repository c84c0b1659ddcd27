-- ===== src/Tests/Fixtures.antt =====
-- A small database, a platform and an arithmetic for the concrete runs.
use Prim.Native.Nat.{◌/◌}
use Prim.Native.Nat.{◌-◌}
use Prim.Native.String.{len}
use paschal.Base.{arith, ◌≡◌, refl, ap, sym, ◌∙◌, ℕ, suc, ◌+◌, ◌*◌, false, [], ◌∷◌, Option, none, some, pos, leb, ltb, max_zero, if◌then◌else◌, ok, length, ◌++◌}
use paschal.Base.Float.{Float32}
use paschal.Domain.Tier
use paschal.Domain.VaultState.{VaultState}
use paschal.Domain.SubscriptionState
use paschal.Domain.ReleaseMode.{ReleaseMode, signal_or_scheduled, scheduled_only, event_on_demand}
use paschal.Domain.StorageRegion
use paschal.Db.Tables.{
  Store, Principal, Subscription, Vault, Letter, ReleaseEvent, Attachment, DuressSignal,
  signal_trigger,
}
use paschal.App.World.{World, Platform, Timer}
use paschal.Base.Bytes.{Bytes, drop}
use paschal.Transform.{Codecs}
use paschal.Crypto.{Primitives}
use paschal.Routes.Letters.{Kms}
use paschal.Routes.Attachments.{Blobs}
use paschal.Crypto.Sealing.{Decrypts}

-- Two decimal places on the natural numbers.
abbrev pub fixed_point : Float32
fixed_point = record {
  F = ℕ;
  hundredths = λ n. n;
  of_int = λ z. max_zero z * 100;
  add = λ a b. a + b;
  mul = λ a b. a * b / 100;
  div = λ a b. a * 100 / suc b;
  sqrt = λ a. a;
  exp = λ a. 100;
  neg = λ a. a;
  max = λ a b. if leb a b then b else a;
  sub = λ a b. a - b;
  min = λ a b. if leb a b then a else b;
  secs_of_nanos = λ n. n / 10000000;
  to_bits = λ a. a;
  of_bits = λ n. n;
  ceil_u32 = λ a. (a + 99) / 100;
  leb = leb;
  ltb = ltb;
}

abbrev pub counter : Platform
counter = record {
  random = λ n. 500 + n;
  hash_token = λ t. t * 2;
  hash_passphrase = λ s salt. salt + len s;
  to_uppercase = λ s. s;
}

abbrev pub owner : Principal
owner = record {
  id = 7;
  display_name = none;
  primary_email = "ada@example.org";
  tos_accepted_at = some 1;
  deletion_requested_at = none;
  deletion_scheduled_for = none;
}

abbrev pub leaving : Principal
leaving = record owner { deletion_requested_at = some 10; deletion_scheduled_for = some 200 }

abbrev pub plan : Subscription
plan = record {
  principal_id = 7;
  state = SubscriptionState.active;
  started_at = 0;
  trial_end_at = none;
  canceled_at = none;
  retention_until = none;
  extra_storage_bytes = pos 0;
}

abbrev pub vault_in : VaultState → Vault
vault_in state = record {
  id = 1;
  principal_id = 7;
  name = "Estate";
  tier = Tier.honest_operator;
  state = state;
  cooling_off_seconds = pos 3600;
  storage_region = StorageRegion.ap_southeast2;
  last_attestation_at = 0;
  cooling_off_started_at = none;
  released_at = none;
  created_at = 0;
}

abbrev pub letter_as : ℕ → ReleaseMode → Option ℕ → Letter
letter_as id mode date = record {
  id = id;
  vault_id = 1;
  kind = "TEXT";
  title = "Farewell";
  recipient_email = "bob@example.org";
  ciphertext = 5 ∷ 6 ∷ [];
  nonce = 1 ∷ [];
  drill_ciphertext = none;
  drill_nonce = none;
  scheduled_release_at = date;
  release_mode = mode;
  event_released_at = none;
  sealed_at = id;
}

abbrev pub open_event : ReleaseEvent
open_event = record {
  id = 40;
  vault_id = 1;
  reason = signal_trigger;
  triggered_at = 100;
  released_at = none;
  cancelled_at = none;
  is_drill = false;
  cooling_off_ends_at = some 3700;
}

abbrev pub photo : Attachment
photo = record {
  id = 60;
  letter_id = 10;
  original_filename = "photo.jpg";
  transformed_size = 500;
  storage_key = "k60";
  nonce = 4 ∷ [];
  sealed_at = 3;
}

abbrev pub triggered_duress : DuressSignal
triggered_duress = record {
  principal_id = 7;
  webhook_id = 80;
  alert_email = none;
  armed_at = 5;
  triggered_at = some 90;
  last_alert_at = some 90;
  panic_mode = "freeze";
}

-- A vault with a letter of each kind, and an open release event.
abbrev pub estate : VaultState → Store
estate state = record {
  principals = owner ∷ [];
  subscriptions = plan ∷ [];
  vaults = vault_in state ∷ [];
  letters =
      letter_as 10 signal_or_scheduled none
      ∷ letter_as 11 scheduled_only (some 50)
      ∷ letter_as 12 event_on_demand none
      ∷ [];
  release_events = open_event ∷ [];
  release_claims = [];
  attachments = photo ∷ [];
  attachment_claims = [];
  recipient_changes = [];
  co_stewards = [];
  sessions = [];
  magic_links = [];
  duress_signals = [];
  buddies = [];
  transparency = [];
  heartbeats = [];
  signal_subscriptions = [];
  signals = [];
  apple_shortcut_subs = [];
  contacts = [];
  bank_dormancies = [];
  webauthn_challenges = [];
  passkeys = [];
  zk_envelopes = [];
  zk_recovery_envelopes = [];
  recoveries = [];
  recovery_keys = [];
  prk_envelopes = [];
  heir_envelopes = [];
}

abbrev pub world_with : Store → World
world_with s = record {
  db = s;
  outbox = [];
  metrics = record {
    releases_started_total = 0;
    releases_completed_total = 0;
    drills_completed_total = 0;
    letters_sealed_total = 0;
    vaults_created_total = 0;
    buddy_responses_total = 0;
    signups_total = 0;
    heartbeats_total = 0;
    apple_pings_total = 0;
    attachments_sealed_total = 0;
    attachments_bytes_total = 0;
  };
  timers = [];
  drawn = 0;
}

abbrev pub old_timer : Timer
old_timer = record { vault_id = 1; release_event_id = 39; fires_at = 3650; is_drill = false }

-- A cipher that puts the nonce in front of the text.
abbrev pub plain_cipher : Primitives
plain_cipher = record {
  encrypt = λ key nonce plaintext. ok (nonce ++ plaintext);
  decrypt = λ key nonce ciphertext. ok (drop (length nonce) ciphertext);
  sha256 = λ bytes. bytes;
  base64 = λ bytes. bytes;
  hex = λ bytes. bytes;
}

abbrev pub codecs : Codecs
codecs = record {
  Pixels = Bytes;
  decode_image = ok;
  encode_jpeg = λ quality pixels. ok pixels;
  sha256_hex = λ bytes. "00";
}

abbrev pub twelve : Bytes
twelve = 1 ∷ 2 ∷ 3 ∷ 4 ∷ 5 ∷ 6 ∷ 7 ∷ 8 ∷ 9 ∷ 10 ∷ 11 ∷ 12 ∷ []

-- A key service that seals with one nonce and leaves the text as it is, and one that opens nothing.
abbrev pub mirror : Kms
mirror = record {
  seal = λ n body. some (twelve, body);
  open_sealed = λ nonce ciphertext. some ciphertext;
}

abbrev pub broken_key : Kms
broken_key = record { seal = λ n body. none; open_sealed = λ nonce ciphertext. none }

drop-append : (front rest : Bytes) → drop (length front) (front ++ rest) ≡ rest
drop-append [] rest = refl
drop-append (c ∷ front) rest = drop-append front rest

pub plain_cipher-Decrypts : Decrypts ⦃c = plain_cipher⦄
plain_cipher-Decrypts key nonce plaintext ciphertext h =
    let same : nonce ++ plaintext ≡ ciphertext = ground (arith, h) in
    ap ok (ap (drop (length nonce)) (sym same) ∙ drop-append nonce plaintext)

-- A blob store that has one object and takes any.
abbrev pub shelf : Blobs
shelf = record { get = λ n key. some (5 ∷ []); put = λ n region bytes. some "key" }
