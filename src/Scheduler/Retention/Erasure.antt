-- ===== src/Scheduler/Retention/Erasure.antt =====
-- The cryptographic erasure of a principal's letters.
use paschal.Base.{
  ℕ, ◌≡◌, Bool, true, false, ◌&&◌, List, [], ◌∷◌, Option, none, some, ok, any, not, Result, ◌==◌,
}
use paschal.Db.Tables.{Letter}
use paschal.App.World.{World, ApiError}

abbrev is_empty : List ℕ → Bool
is_empty [] = true
is_empty (b ∷ bs) = false

abbrev is_blank : Option (List ℕ) → Bool
is_blank none = true
is_blank (some bytes) = is_empty bytes

-- The letter's row holds a byte of a ciphertext or of a nonce, its own or the drill's.
abbrev pub is_readable : ℕ → Letter → Bool
is_readable letter_id l =
    l.id == letter_id
    && not (is_empty l.ciphertext && is_empty l.nonce && is_blank l.drill_ciphertext && is_blank l.drill_nonce)

abbrev pub has_readable : ℕ → World → Bool
has_readable letter_id w = any (is_readable letter_id) w.db.letters

blank : Letter → Letter
blank l = record l {
  ciphertext = [];
  drill_ciphertext = some [];
  nonce = [];
  drill_nonce = some [];
}

abbrev lies_in : ℕ → ℕ → Letter → Bool
lies_in letter_id vault_id l = l.id == letter_id && l.vault_id == vault_id

-- A step of an erasure: it succeeds, letters stay where they are, and none becomes readable again.
record Step (out : Result ApiError (Unit {0}) × World) (w : World) : Type 0 where
  done : out.0 ≡ ok tt
  place :
      (i vault_id : ℕ)
      → any (lies_in i vault_id) out.1.db.letters ≡ any (lies_in i vault_id) w.db.letters
  shrink : (i : ℕ) → has_readable i w ≡ false → has_readable i out.1 ≡ false
