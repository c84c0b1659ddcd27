-- ===== src/Db/Letters.antt =====
-- crates/beacon-db/src/lib.rs: the queries on the tables `letter` and `attachment`.
pub mod Due
pub mod Stored
pub mod Events
use paschal.Base.{
  ℕ, String, Bool, ◌&&◌, List, [], ◌∷◌, Option, none, some, Result, ok, err, ok_or, map, any,
  is_none, at_or_before, if◌then◌else◌, ◌==◌, length,
}
use mathlib.Core.Option
use paschal.Domain.ReleaseMode
use paschal.Domain.ReleaseMode.{
  ReleaseMode, signal_or_scheduled, scheduled_only, signal_only, event_on_demand,
}
use paschal.Db.Sql.{select, update, delete, affected, first, insert, order_by, latest}
use paschal.Db.Tables.{
  Store, Letter, Attachment, AttachmentClaim, RecipientChange, DbError, not_found,
}

-- The category, which nothing reads, is left out.
pub record LetterSealInput : Type 0 where
  pub vault_id : ℕ
  pub title : String
  pub recipient_email : String
  pub ciphertext : List ℕ
  pub nonce : List ℕ
  pub drill_ciphertext : Option (List ℕ)
  pub drill_nonce : Option (List ℕ)
  pub scheduled_release_at : Option ℕ
  pub kind : Option String
  pub release_mode : Option ReleaseMode

-- COALESCE of a column that may be missing with its default.
abbrev or_default : {A : Type 0} → Option A → A → A
or_default none d = d
or_default (some a) d = a

unfoldable pub seal_letter : ℕ → ℕ → LetterSealInput → Store → Letter × Store
seal_letter new_id now input s = (row, record s { letters = insert row s.letters })
  where
    row : Letter
    row = record {
      id = new_id;
      vault_id = input.vault_id;
      kind = or_default input.kind "MESSAGE";
      title = input.title;
      recipient_email = input.recipient_email;
      ciphertext = input.ciphertext;
      nonce = input.nonce;
      drill_ciphertext = input.drill_ciphertext;
      drill_nonce = input.drill_nonce;
      scheduled_release_at = input.scheduled_release_at;
      release_mode = or_default input.release_mode signal_or_scheduled;
      event_released_at = none;
      sealed_at = now;
    }

abbrev pub letter_by_id : ℕ → Letter → Bool
letter_by_id letter_id l = l.id == letter_id

-- `fetch_letter_meta`, `fetch_letter_admin` and `fetch_letter_full` differ in their columns only.
unfoldable pub fetch_letter : ℕ → Store → Result DbError Letter
fetch_letter letter_id s = ok_or not_found (first (letter_by_id letter_id) s.letters)

-- `list_letters` and `list_letters_admin`.
unfoldable pub list_letters : ℕ → Store → List Letter
list_letters vault_id s =
    order_by (λ l. l.sealed_at) (select (λ l. l.vault_id == vault_id) s.letters)

unfoldable pub letter_count : ℕ → Store → ℕ
letter_count vault_id s = length (select (λ l. l.vault_id == vault_id) s.letters)

-- release_mode IN (…)
abbrev pub mode_in : List ReleaseMode → Letter → Bool
mode_in modes l = any (ReleaseMode.eq l.release_mode) modes

unfoldable pub list_scheduled_letters_due : ℕ → Store → List (ℕ × ℕ)
list_scheduled_letters_due now s =
    map (λ l. (l.vault_id, l.id))
      (select
        (λ l.
          at_or_before l.scheduled_release_at now
          && mode_in (signal_or_scheduled ∷ scheduled_only ∷ []) l)
        s.letters)

unfoldable pub list_letters_for_signal_release : ℕ → Store → List Letter
list_letters_for_signal_release vault_id s =
    order_by (λ l. l.sealed_at)
      (select (λ l. l.vault_id == vault_id && mode_in (signal_or_scheduled ∷ signal_only ∷ []) l)
        s.letters)

-- Title, address, ciphertext and nonce; the drill payload if it is asked for and complete.
abbrev drill_payload :
    Letter → Option (List ℕ) → Option (List ℕ) → String × String × List ℕ × List ℕ
drill_payload l (some ct) (some nc) = (l.title, l.recipient_email, ct, nc)
drill_payload l _ _ = (l.title, l.recipient_email, l.ciphertext, l.nonce)

abbrev payload : Letter → Bool → String × String × List ℕ × List ℕ
payload l for_drill =
    if for_drill
    then drill_payload l l.drill_ciphertext l.drill_nonce
    else (l.title, l.recipient_email, l.ciphertext, l.nonce)

unfoldable pub fetch_letter_ciphertext :
    ℕ → Bool → Store → Result DbError (String × String × List ℕ × List ℕ)
fetch_letter_ciphertext letter_id for_drill s = elim (first (letter_by_id letter_id) s.letters) [
  | none ↦ err not_found
  | some l ↦ ok (payload l for_drill)
]

unfoldable pub update_letter_meta :
    ℕ → String → String → Option ℕ → ReleaseMode → String → Store → Result DbError Letter × Store
update_letter_meta letter_id title recipient_email scheduled_release_at release_mode kind s =
    let letters =
      update (letter_by_id letter_id)
        (λ l. record l {
          title = title;
          recipient_email = recipient_email;
          scheduled_release_at = scheduled_release_at;
          release_mode = release_mode;
          kind = kind;
        })
        s.letters in
    (ok_or not_found (first (letter_by_id letter_id) letters), record s { letters = letters })

-- A claim on an attachment of the letter, which the schema deletes with it.
abbrev claims_attachment_of : ℕ → List Attachment → AttachmentClaim → Bool
claims_attachment_of letter_id attachments c =
    any (λ a. a.id == c.attachment_id && a.letter_id == letter_id) attachments

-- With the rows that refer to the letter by ON DELETE CASCADE.
unfoldable pub delete_letter : ℕ → Store → Store
delete_letter letter_id s = record s {
  letters = delete (letter_by_id letter_id) s.letters;
  release_claims = delete (λ c. c.letter_id == letter_id) s.release_claims;
  attachments = delete (λ a. a.letter_id == letter_id) s.attachments;
  attachment_claims = delete (claims_attachment_of letter_id s.attachments) s.attachment_claims;
  recipient_changes = delete (λ c. c.letter_id == letter_id) s.recipient_changes;
  heir_envelopes = delete (λ e. e.letter_id == letter_id) s.heir_envelopes;
}

-- WHERE id = $1 AND release_mode = 'EVENT_ON_DEMAND' AND event_released_at IS NULL
abbrev pub is_held_event : ℕ → Letter → Bool
is_held_event letter_id l =
    l.id == letter_id
    && (ReleaseMode.eq l.release_mode event_on_demand && is_none l.event_released_at)

unfoldable pub mark_letter_event_released : ℕ → ℕ → Store → Bool × Store
mark_letter_event_released now letter_id s = (
  affected (is_held_event letter_id) s.letters == 1,
  record s {
    letters =
        update (is_held_event letter_id) (λ l. record l { event_released_at = some now }) s.letters;
  },
)

-- The UPDATE at the end of `scheduled_release_tick`.
unfoldable pub clear_schedule : ℕ → Store → Store
clear_schedule letter_id s = record s {
  letters =
      update (letter_by_id letter_id) (λ l. record l { scheduled_release_at = none }) s.letters;
}

-- The payloads are overwritten by empty ones.
unfoldable pub purge_letter_ciphertext : ℕ → Store → Store
purge_letter_ciphertext letter_id s = record s {
  letters =
      update (letter_by_id letter_id)
        (λ l. record l {
          ciphertext = [];
          drill_ciphertext = some [];
          nonce = [];
          drill_nonce = some [];
        })
        s.letters;
}

unfoldable pub list_attachments : ℕ → Store → List Attachment
list_attachments letter_id s =
    order_by (λ a. a.sealed_at) (select (λ a. a.letter_id == letter_id) s.attachments)

abbrev pub attachment_by_id : ℕ → Attachment → Bool
attachment_by_id attachment_id a = a.id == attachment_id

unfoldable pub purge_attachment : ℕ → Store → Option String × Store
purge_attachment attachment_id s = (
  Option.map (λ a. a.storage_key) (first (attachment_by_id attachment_id) s.attachments),
  record s {
    attachments = delete (attachment_by_id attachment_id) s.attachments;
    attachment_claims = delete (λ c. c.attachment_id == attachment_id) s.attachment_claims;
  },
)

unfoldable pub update_attachment_storage_key : ℕ → String → Store → Store
update_attachment_storage_key attachment_id key s = record s {
  attachments =
      update (attachment_by_id attachment_id) (λ a. record a { storage_key = key }) s.attachments;
}
