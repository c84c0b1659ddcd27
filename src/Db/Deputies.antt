-- ===== src/Db/Deputies.antt =====
-- crates/beacon-db/src/lib.rs: the queries on the tables `co_steward`, `buddy` and
-- `duress_signal`: those who act for a principal, or against one's will.
use paschal.Base.{
  [], ℕ, String, Bool, false, ◌&&◌, Option, none, some, Result, ok, err, ok_or, List, if◌then◌else◌,
  any, is_none, is_some, coalesce, ◌==◌, str_eq, length,
}
use mathlib.Core.Option
use paschal.Domain.BuddyResponse.{BuddyResponse}
use paschal.Db.Sql.{reverse_onto, select, update, delete, first, insert}
use paschal.Db.Tables.{Store, CoSteward, DuressSignal, Buddy, DbError, not_found, unique_violation}

abbrev pub is_hash : Option ℕ → ℕ → Bool
is_hash none h = false
is_hash (some x) h = x == h

-- ON CONFLICT (principal_id, email)
abbrev pub same_invite : ℕ → String → CoSteward → Bool
same_invite principal_id email c = c.principal_id == principal_id && str_eq c.email email

-- A second invitation resets the deputy that it names.
unfoldable pub invite_co_steward : ℕ → ℕ → String → ℕ → Store → Store
invite_co_steward new_id principal_id email token_hash s = record s {
  co_stewards = elim (first (same_invite principal_id email) s.co_stewards) [
    | none ↦ insert row s.co_stewards
    | some old ↦
        update (same_invite principal_id email)
          (λ c. record c {
            confirmation_token_hash = some token_hash;
            confirmed_at = none;
            revoked_at = none;
          })
          s.co_stewards
  ];
}
  where
    row : CoSteward
    row = record {
      id = new_id;
      principal_id = principal_id;
      email = email;
      confirmation_token_hash = some token_hash;
      passphrase_hash = none;
      passphrase_salt = none;
      confirmed_at = none;
      revoked_at = none;
      last_viewed_at = none;
    }

-- WHERE confirmation_token_hash = $1 AND revoked_at IS NULL
abbrev pub is_invited : ℕ → CoSteward → Bool
is_invited token_hash c = is_hash c.confirmation_token_hash token_hash && is_none c.revoked_at

abbrev confirmed : ℕ → ℕ → ℕ → CoSteward → CoSteward
confirmed now passphrase_hash salt c = record c {
  confirmed_at = coalesce c.confirmed_at (some now);
  passphrase_hash = some passphrase_hash;
  passphrase_salt = some salt;
  confirmation_token_hash = none;
}

unfoldable pub confirm_co_steward : ℕ → ℕ → ℕ → ℕ → Store → Option CoSteward × Store
confirm_co_steward now token_hash passphrase_hash salt s = (
  Option.map (confirmed now passphrase_hash salt) (first (is_invited token_hash) s.co_stewards),
  record s {
    co_stewards = update (is_invited token_hash) (confirmed now passphrase_hash salt) s.co_stewards;
  },
)

-- email = $1 AND confirmed_at IS NOT NULL AND revoked_at IS NULL
abbrev pub is_confirmed_as : String → CoSteward → Bool
is_confirmed_as email c = str_eq c.email email && (is_some c.confirmed_at && is_none c.revoked_at)

unfoldable pub sign_in_co_steward : String → ℕ → Store → Option CoSteward
sign_in_co_steward email passphrase_hash s =
    first (λ c. is_confirmed_as email c && is_hash c.passphrase_hash passphrase_hash) s.co_stewards

unfoldable pub lookup_co_steward_salt : String → Store → Option ℕ
lookup_co_steward_salt email s = elim (first (is_confirmed_as email) s.co_stewards) [
  | none ↦ none
  | some c ↦ c.passphrase_salt
]

-- ORDER BY created_at DESC: rows are inserted at the end, and an invitation that is repeated keeps
-- the time of its row.
unfoldable pub list_co_stewards : ℕ → Store → List CoSteward
list_co_stewards principal_id s =
    reverse_onto
      (select (λ c. c.principal_id == principal_id && is_none c.revoked_at) s.co_stewards) []

unfoldable pub co_steward_count : ℕ → Store → ℕ
co_steward_count principal_id s =
    length (select (λ c. c.principal_id == principal_id && is_none c.revoked_at) s.co_stewards)

abbrev pub co_steward_by_id : ℕ → CoSteward → Bool
co_steward_by_id co_steward_id c = c.id == co_steward_id

unfoldable pub fetch_co_steward : ℕ → Store → Result DbError CoSteward
fetch_co_steward co_steward_id s =
    ok_or not_found (first (co_steward_by_id co_steward_id) s.co_stewards)

unfoldable pub revoke_co_steward : ℕ → ℕ → Store → Store
revoke_co_steward now co_steward_id s = record s {
  co_stewards =
      update (co_steward_by_id co_steward_id) (λ c. record c { revoked_at = some now })
        s.co_stewards;
}

unfoldable pub touch_co_steward_view : ℕ → ℕ → Store → Store
touch_co_steward_view now co_steward_id s = record s {
  co_stewards =
      update (co_steward_by_id co_steward_id) (λ c. record c { last_viewed_at = some now })
        s.co_stewards;
}

-- UNIQUE (principal_id, email)
unfoldable pub invite_buddy : ℕ → ℕ → String → ℕ → ℕ → Store → Result DbError Buddy × Store
invite_buddy new_id principal_id email token_hash cadence s =
    if any (λ b. (b.principal_id == principal_id) && str_eq b.email email) s.buddies
    then (err unique_violation, s)
    else (ok row, record s { buddies = insert row s.buddies })
  where
    row : Buddy
    row = record {
      id = new_id;
      principal_id = principal_id;
      email = email;
      prompt_cadence_days = cadence;
      confirmation_token_hash = some token_hash;
      last_response_at = none;
      last_response = none;
      confirmed_at = none;
      revoked_at = none;
    }

-- Rows stand in the order of their creation.
unfoldable pub list_buddies : ℕ → Store → List Buddy
list_buddies principal_id s = select (λ b. b.principal_id == principal_id) s.buddies

unfoldable pub fetch_buddy : ℕ → Store → Result DbError Buddy
fetch_buddy buddy_id s = ok_or not_found (first (λ b. b.id == buddy_id) s.buddies)

-- WHERE confirmation_token_hash = $1 AND confirmed_at IS NULL AND revoked_at IS NULL
abbrev pub is_buddy_invited : ℕ → Buddy → Bool
is_buddy_invited token_hash b =
    is_hash b.confirmation_token_hash token_hash && (is_none b.confirmed_at && is_none b.revoked_at)

unfoldable pub confirm_buddy : ℕ → ℕ → Store → Option Buddy × Store
confirm_buddy now token_hash s = (
  Option.map {A = Buddy} confirm (first (is_buddy_invited token_hash) s.buddies),
  record s { buddies = update (is_buddy_invited token_hash) confirm s.buddies },
)
  where
    confirm : Buddy → Buddy
    confirm b = record b { confirmed_at = some now; confirmation_token_hash = none }

-- WHERE id = $2 AND confirmed_at IS NOT NULL AND revoked_at IS NULL
abbrev pub is_responding : ℕ → Buddy → Bool
is_responding buddy_id b = b.id == buddy_id && (is_some b.confirmed_at && is_none b.revoked_at)

abbrev pub responded : ℕ → BuddyResponse → Buddy → Buddy
responded now response b = record b { last_response = some response; last_response_at = some now }

unfoldable pub record_buddy_response : ℕ → ℕ → BuddyResponse → Store → Result DbError Buddy × Store
record_buddy_response now buddy_id response s = (
  ok_or not_found (Option.map (responded now response) (first (is_responding buddy_id) s.buddies)),
  record s { buddies = update (is_responding buddy_id) (responded now response) s.buddies },
)

unfoldable pub revoke_buddy : ℕ → ℕ → Store → Store
revoke_buddy now buddy_id s = record s {
  buddies = update (λ b. b.id == buddy_id) (λ b. record b { revoked_at = some now }) s.buddies;
}

abbrev pub duress_of : ℕ → DuressSignal → Bool
duress_of principal_id d = d.principal_id == principal_id

-- INSERT … ON CONFLICT (principal_id) DO UPDATE: the row of the principal becomes this one.
unfoldable pub arm_duress : ℕ → ℕ → ℕ → Option String → String → Store → DuressSignal × Store
arm_duress now principal_id webhook_id alert_email panic_mode s = (
  row,
  record s {
    duress_signals = elim (first (duress_of principal_id) s.duress_signals) [
      | none ↦ insert row s.duress_signals
      | some old ↦ update (duress_of principal_id) (λ d. row) s.duress_signals
    ];
  },
)
  where
    row : DuressSignal
    row = record {
      principal_id = principal_id;
      webhook_id = webhook_id;
      alert_email = alert_email;
      armed_at = now;
      triggered_at = none;
      last_alert_at = none;
      panic_mode = panic_mode;
    }

unfoldable pub fetch_duress : ℕ → Store → Option DuressSignal
fetch_duress principal_id s = first (duress_of principal_id) s.duress_signals

unfoldable pub delete_duress : ℕ → Store → Store
delete_duress principal_id s = record s {
  duress_signals = delete (duress_of principal_id) s.duress_signals;
}

abbrev pub has_webhook : ℕ → DuressSignal → Bool
has_webhook webhook_id d = d.webhook_id == webhook_id

unfoldable pub trigger_duress : ℕ → ℕ → Store → Option DuressSignal × Store
trigger_duress now webhook_id s =
    let duress_signals =
      update (has_webhook webhook_id)
        (λ d. record d {
          triggered_at = coalesce d.triggered_at (some now);
          last_alert_at = some now;
        })
        s.duress_signals in
    (first (has_webhook webhook_id) duress_signals, record s { duress_signals = duress_signals })

-- WHERE principal_id = $1 AND triggered_at IS NOT NULL
unfoldable pub principal_in_duress : ℕ → Store → Bool
principal_in_duress principal_id s =
    any (λ d. d.principal_id == principal_id && is_some d.triggered_at) s.duress_signals
