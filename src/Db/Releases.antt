-- ===== src/Db/Releases.antt =====
-- crates/beacon-db/src/lib.rs: the queries on the tables `release_event`, `release_claim` and
-- `release_attachment_claim`, and the transparency log.
pub mod Deadlines
pub mod Tokens
use paschal.Base.{
  ℕ, ◌+◌, ◌*◌, String, Bool, ◌&&◌, List, [], ◌∷◌, Option, none, some, map, any, is_none, is_some,
  at_or_before, after, if◌then◌else◌, ◌==◌,
}
use mathlib.Core.Option
use paschal.Domain.VaultState
use paschal.Domain.VaultState.{cooling_off}
use paschal.Db.Sql.{limit, reverse_onto, select, update, first, insert, latest}
use paschal.Db.Tables.{
  Store, Vault, ReleaseEvent, ReleaseReason, signal_trigger, ReleaseClaim, AttachmentClaim,
  TransparencyEntry,
}

abbrev new_event : ℕ → ℕ → ℕ → ReleaseReason → Bool → Option ℕ → ReleaseEvent
new_event new_id now vault_id reason is_drill ends_at = record {
  id = new_id;
  vault_id = vault_id;
  reason = reason;
  triggered_at = now;
  released_at = none;
  cancelled_at = none;
  is_drill = is_drill;
  cooling_off_ends_at = ends_at;
}

unfoldable pub create_release_event :
    ℕ → ℕ → ℕ → ReleaseReason → Bool → Store → ReleaseEvent × Store
create_release_event new_id now vault_id reason is_drill s =
    let row = new_event new_id now vault_id reason is_drill none in
    (row, record s { release_events = insert row s.release_events })

unfoldable pub create_release_event_with_deadline :
    ℕ → ℕ → ℕ → ReleaseReason → Bool → ℕ → Store → ReleaseEvent × Store
create_release_event_with_deadline new_id now vault_id reason is_drill ends_at s =
    let row = new_event new_id now vault_id reason is_drill (some ends_at) in
    (row, record s { release_events = insert row s.release_events })

-- released_at IS NULL AND cancelled_at IS NULL
abbrev pub is_open : ReleaseEvent → Bool
is_open re = is_none re.released_at && is_none re.cancelled_at

-- JOIN vault v ON v.id = re.vault_id … AND v.state = 'COOLING_OFF'
abbrev pub vault_is_cooling : ℕ → List Vault → Bool
vault_is_cooling vault_id vaults =
    any (λ v. v.id == vault_id && VaultState.eq v.state cooling_off) vaults

abbrev pub is_due : ℕ → Store → ReleaseEvent → Bool
is_due now s re =
    is_open re && (at_or_before re.cooling_off_ends_at now && vault_is_cooling re.vault_id s.vaults)

unfoldable pub list_due_releases : ℕ → Store → List (ℕ × ℕ × Bool)
list_due_releases now s =
    map (λ re. (re.vault_id, re.id, re.is_drill)) (select (is_due now s) s.release_events)

abbrev pub event_by_id : ℕ → ReleaseEvent → Bool
event_by_id release_id re = re.id == release_id

unfoldable pub mark_release_released : ℕ → ℕ → Store → Store
mark_release_released now release_id s = record s {
  release_events =
      update (event_by_id release_id) (λ re. record re { released_at = some now }) s.release_events;
}

unfoldable pub mark_release_cancelled : ℕ → ℕ → Store → Store
mark_release_cancelled now release_id s = record s {
  release_events =
      update (λ re. re.id == release_id && is_open re) (λ re. record re { cancelled_at = some now })
        s.release_events;
}

-- The reason is not read back.
unfoldable pub fetch_open_release : ℕ → Store → Option ReleaseEvent
fetch_open_release vault_id s =
    Option.map {A = ReleaseEvent} (λ re. record re { reason = signal_trigger })
      (latest (λ re. re.triggered_at)
        (select (λ re. re.vault_id == vault_id && is_open re) s.release_events))

abbrev day : ℕ
day = 86400

-- The token is fresh, so that the primary key on its hash is not hit, and the rows it names are
-- there, as the foreign keys ask.
unfoldable pub issue_release_claim : ℕ → ℕ → ℕ → String → ℕ → ℕ → Store → Store
issue_release_claim now release_event_id letter_id recipient_email token_hash ttl_days s =
    record s { release_claims = insert row s.release_claims }
  where
    row : ReleaseClaim
    row = record {
      token_hash = token_hash;
      release_event_id = release_event_id;
      letter_id = letter_id;
      recipient_email = recipient_email;
      expires_at = now + ttl_days * day;
      claimed_at = none;
    }

unfoldable pub issue_attachment_claim : ℕ → ℕ → ℕ → String → ℕ → ℕ → Store → Store
issue_attachment_claim now release_event_id attachment_id recipient_email token_hash ttl_days s =
    record s { attachment_claims = insert row s.attachment_claims }
  where
    row : AttachmentClaim
    row = record {
      token_hash = token_hash;
      release_event_id = release_event_id;
      attachment_id = attachment_id;
      recipient_email = recipient_email;
      expires_at = now + ttl_days * day;
      claimed_at = none;
    }

-- WHERE token_hash = $1 AND claimed_at IS NULL AND expires_at > now()
abbrev pub is_claimable : ℕ → ℕ → ReleaseClaim → Bool
is_claimable now token_hash c =
    c.token_hash == token_hash && (is_none c.claimed_at && after (some c.expires_at) now)

-- The claim is marked, and joined with its release event for `is_drill`.
unfoldable pub consume_release_claim : ℕ → ℕ → Store → Option (ℕ × String × Bool) × Store
consume_release_claim now token_hash s =
    elim (first (is_claimable now token_hash) s.release_claims) [
      | none ↦ (none, s)
      | some c ↦ (
        Option.map (λ re. (c.letter_id, c.recipient_email, re.is_drill))
            (first (event_by_id c.release_event_id) s.release_events),
        record s {
          release_claims =
              update (is_claimable now token_hash) (λ c. record c { claimed_at = some now })
                s.release_claims;
        },
      )
    ]

abbrev pub is_attachment_claimable : ℕ → ℕ → AttachmentClaim → Bool
is_attachment_claimable now token_hash c =
    c.token_hash == token_hash && (is_none c.claimed_at && after (some c.expires_at) now)

unfoldable pub consume_attachment_claim : ℕ → ℕ → Store → Option (ℕ × String × Bool) × Store
consume_attachment_claim now token_hash s =
    elim (first (is_attachment_claimable now token_hash) s.attachment_claims) [
      | none ↦ (none, s)
      | some c ↦ (
        Option.map (λ re. (c.attachment_id, c.recipient_email, re.is_drill))
            (first (event_by_id c.release_event_id) s.release_events),
        record s {
          attachment_claims =
              update (is_attachment_claimable now token_hash)
                (λ c. record c { claimed_at = some now }) s.attachment_claims;
        },
      )
    ]

unfoldable pub append_transparency_entry : String → Option ℕ → Option ℕ → Store → Store
append_transparency_entry kind principal_id vault_id s = record s {
  transparency = insert row s.transparency;
}
  where
    row : TransparencyEntry
    row = record { kind = kind; principal_id = principal_id; vault_id = vault_id }

-- ORDER BY ts DESC LIMIT $1: entries are inserted at the end, at the time of their writing.
unfoldable pub list_transparency_entries : ℕ → Store → List TransparencyEntry
list_transparency_entries n s = limit n (reverse_onto s.transparency [])
