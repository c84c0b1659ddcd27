-- ===== src/Db/Contacts.antt =====
-- crates/beacon-db/src/lib.rs: the contacts of a vault, a vault's attachments and the counts that
-- quotas are checked against. A birthday is a parsed date.
use Prim.Native.Nat.{◌+◌}
use paschal.Base.{
  ℕ, String, Bool, ◌&&◌, List, [], ◌∷◌, Option, none, some, Result, ok, err, not, if◌then◌else◌,
  length, ◌==◌, str_eq, any, coalesce,
}
use paschal.Domain.Tier
use paschal.Domain.Tier.{zero_knowledge}
use paschal.Db.Sql.{select, update, delete, first, insert, upsert, order_by}
use paschal.Db.Tables.{Store, VaultContact, Attachment, DbError, not_found, unique_violation}

unfoldable pub list_vault_contacts : ℕ → Store → List VaultContact
list_vault_contacts vault_id s =
    order_by (λ c. c.created_at) (select (λ c. c.vault_id == vault_id) s.contacts)

-- ON CONFLICT (vault_id, email)
abbrev pub same_contact : ℕ → String → VaultContact → Bool
same_contact vault_id email c = c.vault_id == vault_id && str_eq c.email email

unfoldable pub create_vault_contact :
    ℕ → ℕ → ℕ → String → String → Option ℕ → Option String → Store → Option VaultContact × Store
create_vault_contact new_id now vault_id display_name email birthday release_note s =
    let rows =
      upsert (same_contact vault_id email)
        (λ c. record c {
          display_name = display_name;
          birthday = birthday;
          release_note = release_note;
        })
        row s.contacts in
    (first (same_contact vault_id email) rows, record s { contacts = rows })
  where
    row : VaultContact
    row = record {
      id = new_id;
      vault_id = vault_id;
      display_name = display_name;
      email = email;
      birthday = birthday;
      release_note = release_note;
      created_at = now;
    }

-- WHERE id = $5 AND vault_id = $6
abbrev pub contact_in : ℕ → ℕ → VaultContact → Bool
contact_in contact_id vault_id c = c.id == contact_id && c.vault_id == vault_id

-- UNIQUE (vault_id, email): another contact of the vault has the address.
abbrev pub takes_email : ℕ → ℕ → String → VaultContact → Bool
takes_email contact_id vault_id email c = same_contact vault_id email c && not (c.id == contact_id)

abbrev pub edited : String → String → Option ℕ → Option String → VaultContact → VaultContact
edited display_name email birthday release_note c = record c {
  display_name = display_name;
  email = email;
  birthday = birthday;
  release_note = release_note;
}

unfoldable pub update_vault_contact :
    ℕ → ℕ → String → String → Option ℕ → Option String → Store → Result DbError VaultContact × Store
update_vault_contact contact_id vault_id display_name email birthday release_note s =
    let edit = edited display_name email birthday release_note in
    elim (first (contact_in contact_id vault_id) s.contacts) [
      | none ↦ (err not_found, s)
      | some c ↦
          if any (takes_email contact_id vault_id email) s.contacts
          then (err unique_violation, s)
          else (
            ok (edit c),
            record s { contacts = update (contact_in contact_id vault_id) edit s.contacts },
          )
    ]

unfoldable pub delete_vault_contact : ℕ → ℕ → Store → Store
delete_vault_contact contact_id vault_id s = record s {
  contacts = delete (contact_in contact_id vault_id) s.contacts;
}

unfoldable pub vault_count : ℕ → Store → ℕ
vault_count principal_id s = length (select (λ v. v.principal_id == principal_id) s.vaults)

-- JOIN letter l ON l.id = a.letter_id, JOIN vault v ON v.id = l.vault_id
abbrev pub attached_for : ℕ → Store → Attachment → Bool
attached_for principal_id s a =
    any
      (λ l.
        (l.id == a.letter_id)
        && any (λ v. (v.id == l.vault_id) && (v.principal_id == principal_id)) s.vaults)
      s.letters

abbrev pub total_size : List Attachment → ℕ
total_size [] = 0
total_size (a ∷ rest) = a.transformed_size + total_size rest

unfoldable pub storage_used : ℕ → Store → ℕ
storage_used principal_id s = total_size (select (attached_for principal_id s) s.attachments)

unfoldable pub fetch_attachment : ℕ → Store → Result DbError (Attachment × List ℕ)
fetch_attachment attachment_id s = elim (first (λ a. a.id == attachment_id) s.attachments) [
  | none ↦ err not_found
  | some a ↦ ok (a, a.nonce)
]

unfoldable pub list_attachments_for_vault : ℕ → Store → List Attachment
list_attachments_for_vault vault_id s =
    order_by (λ a. a.sealed_at)
      (select (λ a. any (λ l. (l.id == a.letter_id) && (l.vault_id == vault_id)) s.letters)
        s.attachments)

unfoldable pub create_attachment : Attachment → Store → Attachment × Store
create_attachment row s = (row, record s { attachments = insert row s.attachments })

-- `COALESCE(tos_accepted_at, now())`
unfoldable pub set_tos_accepted : ℕ → ℕ → Store → Store
set_tos_accepted now principal_id s = record s {
  principals =
      update (λ p. p.id == principal_id)
        (λ p. record p { tos_accepted_at = coalesce p.tos_accepted_at (some now) }) s.principals;
}

unfoldable pub count_zk_vaults_for_principal : ℕ → Store → ℕ
count_zk_vaults_for_principal principal_id s = length (
    select
      (λ v.
        (v.principal_id == principal_id)
        && str_eq (Tier.as_db_str v.tier) (Tier.as_db_str zero_knowledge))
      s.vaults)
