-- ===== src/Db/Letters/Stored.antt =====
-- crates/beacon-db/src/lib.rs: a letter that was just sealed.
use paschal.Base.{ℕ, ◌≡◌, refl, ap, ◌∙◌, none, ok, ok_or, ==_refl}
use paschal.Db.Sql.{first}
use paschal.Db.Sql.Lookup.{first-insert}
use paschal.Db.Tables
use paschal.Db.Tables.{Store}
use paschal.Db.Letters.{LetterSealInput, letter_by_id, fetch_letter, seal_letter}

-- A row that was just inserted is found.
pub fetch_letter-seal_letter :
    (id now : ℕ) (input : LetterSealInput) (s : Store)
    → first (letter_by_id id) s.letters ≡ none
    → fetch_letter id (seal_letter id now input s).1 ≡ ok (seal_letter id now input s).0
unfolding fetch_letter seal_letter
fetch_letter-seal_letter id now input s fresh =
    ap (ok_or Tables.not_found)
      (first-insert (letter_by_id id) (seal_letter id now input s).0 s.letters fresh)
    ∙ rw (==_refl id) refl

-- What it holds, and what it leaves alone.
pub seal_letter_keeps :
    (id now : ℕ) (input : LetterSealInput) (s : Store)
    → ((seal_letter id now input s).0.ciphertext ≡ input.ciphertext)
      × ((seal_letter id now input s).1.heir_envelopes ≡ s.heir_envelopes)
      × ((seal_letter id now input s).0.id ≡ id)
      × ((seal_letter id now input s).1.attachments ≡ s.attachments)
unfolding seal_letter
seal_letter_keeps id now input s = (refl, refl, refl, refl)
