-- ===== src/Routes/Letters/Claiming.antt =====
-- crates/beacon-api/src/routes.rs: what a recipient gets for a claim token.
use paschal.Base.{
  ℕ, String, ◌≡◌, ◌∙◌, refl, ap, Bool, true, false, Option, some, ok, length, ◌==◌, Option-cases,
  inl, inr, arith,
}
use paschal.Base.Bytes.{Bytes}
use paschal.Domain.Tier.{honest_operator, zero_knowledge}
use paschal.Db.Sql.{first}
use paschal.Db.Tables.{Store, Vault, Letter}
use paschal.Db.Vaults.{fetch_vault}
use paschal.Db.Letters.{letter_by_id, fetch_letter, fetch_letter_ciphertext}
use paschal.Db.Envelopes.{get_zk_letter_heir_envelope}
use paschal.Db.Releases.{consume_release_claim}
use paschal.App.World.{World, Platform, internal}
use paschal.Crypto.{Primitives}
use paschal.Crypto.Sealing.{Decrypts}
use paschal.Db.Letters as LetterQueries
use paschal.Db.Releases.{append_transparency_entry}
use paschal.App.Monad.Laws.{ok->>=, ok-require, ok_answer}
use paschal.Routes.Vaults.{owned_vault, lift}
use paschal.Routes.Letters.Keys.{operator_kms, operator_kms-opens, operator_kms-nonce}
use paschal.Routes.Letters.{seal_letter, store_letter, seal_body, seal_drill, may_seal, mode_value}
use paschal.Routes.Letters.{Kms, opened, for_heir, open_letter, heir_view, claim_release}

fetch_letter_ciphertext-real :
    (letter_id : ℕ) (s : Store) (l : Letter)
    → fetch_letter letter_id s ≡ ok l
    → fetch_letter_ciphertext letter_id false s
      ≡ ok (l.title, l.recipient_email, l.ciphertext, l.nonce)
unfolding fetch_letter fetch_letter_ciphertext
fetch_letter_ciphertext-real letter_id s l h =
    elim (Option-cases (first (letter_by_id letter_id) s.letters)) [
      | inl e ↦ absurd (ground (arith, e, h))
      | inr (l', e) ↦ rw (e, fetch_letter_ciphertext) (ground (arith, e, h))
    ]

module _ ⦃p : Platform⦄ ⦃k : Kms⦄ (now token letter_id : ℕ) (rcpt : String) (is_drill : Bool)
    (w : World) (s : Store) (l : Letter) (v : Vault)
    (claimed : consume_release_claim now (p.hash_token token) w.db
      ≡ (some (letter_id, rcpt, is_drill), s))
    (letter : fetch_letter letter_id s ≡ ok l) (vault : fetch_vault l.vault_id s ≡ ok v) where
  claim_opens :
      (body : Bytes)
      → v.tier ≡ honest_operator
      → is_drill ≡ false
      → (length l.nonce == 12) ≡ true
      → k.open_sealed l.nonce l.ciphertext ≡ some body
      → claim_release now token w
        ≡ (ok (opened l.title l.recipient_email body false), record w { db = s })
  unfolding claim_release open_letter
  claim_opens body tier real nonce opens = rw claimed (
      rw letter (
        rw vault (
          rw tier (
            rw real (
              rw (fetch_letter_ciphertext-real letter_id s l letter)
                (rw nonce (rw opens refl)))))))

  -- For a vault whose key the operator does not have, the claim gives the stored envelope for the
  -- heir, whatever the operator's key service does.
  pub claim_hands_out_envelope :
      v.tier ≡ zero_knowledge
      → claim_release now token w ≡ (
        ok (for_heir l.title l.recipient_email is_drill (get_zk_letter_heir_envelope letter_id s)),
        record w { db = s },
      )
  unfolding claim_release heir_view
  claim_hands_out_envelope tier = rw claimed (rw letter (rw vault (rw tier refl)))

module _ ⦃p : Platform⦄ ⦃k : Kms⦄ where
  -- What is stored of a letter is what the key service made of its body.
  sealed_by_kms :
      (now : ℕ) (headers : Option ℕ) (vault_id : ℕ) (title email : String) (body : Bytes)
      (drill_body : Option Bytes) (scheduled : Option ℕ) (kind mode : Option String) (w w' : World)
      (l : Letter)
      → seal_letter now headers vault_id title email body drill_body scheduled kind mode w ≡ (ok l, w')
      → (call : ℕ) × (k.seal call body ≡ some (l.nonce, l.ciphertext))
  unfolding seal_letter store_letter LetterQueries.seal_letter append_transparency_entry
  sealed_by_kms now headers vault_id title email body drill_body scheduled kind mode w w' l h =
      let (owner, w1, e1, r1) = ok->>= (owned_vault now headers vault_id) _ w w' l h in
      let (u2, w2, e2, r2) = ok->>= (may_seal now owner.0 owner.1 scheduled kind mode) _ w1 w' l r1 in
      let (pair, w3, e3, r3) = ok->>= (seal_body body) _ w2 w' l r2 in
      let (drill, w4, e4, r4) = ok->>= (seal_drill drill_body) _ w3 w' l r3 in
      let (release_mode, w5, e5, r5) = ok->>= (lift (mode_value mode)) _ w4 w' l r4 in
      let sealed = ok-require internal (k.seal w2.drawn body) _ w3 pair e3 in
      let stored = ok_answer _ l _ w' r5 in
      (w2.drawn, sealed.0 ∙ ap (λ x. some (x.nonce, x.ciphertext)) stored)

-- The operator, whose key has 32 bytes and whose nonces have 12, seals a letter for its owner.
-- Whenever a claim that is no drill is used, of the letter in a vault whose key the operator keeps,
-- and the letter's nonce and ciphertext are still the stored ones, the recipient gets the body that
-- the owner gave, if the cipher decrypts what it encrypts.
pub claim_opens_sealed_body :
    ⦃p : Platform⦄ ⦃c : Primitives⦄ (nonces : ℕ → Bytes) (key : Bytes)
    → Decrypts → length key ≡ 32 → ((n : ℕ) → length (nonces n) ≡ 12)
    → (now : ℕ) (headers : Option ℕ) (vault_id : ℕ) (title email : String) (body : Bytes)
    (drill_body : Option Bytes) (scheduled : Option ℕ) (kind mode : Option String) (w w' : World)
    (l : Letter)
    → seal_letter ⦃k = operator_kms nonces key⦄ now headers vault_id title email body drill_body scheduled kind mode w
      ≡ (ok l, w')
    → (later token : ℕ) (rcpt : String) (w₂ : World) (s : Store) (l₂ : Letter) (v : Vault)
    → consume_release_claim later (p.hash_token token) w₂.db ≡ (some (l.id, rcpt, false), s)
    → fetch_letter l.id s ≡ ok l₂
    → l₂.nonce ≡ l.nonce
    → l₂.ciphertext ≡ l.ciphertext
    → fetch_vault l₂.vault_id s ≡ ok v
    → v.tier ≡ honest_operator
    → claim_release ⦃k = operator_kms nonces key⦄ later token w₂
      ≡ (ok (opened l₂.title l₂.recipient_email body false), record w₂ { db = s })
claim_opens_sealed_body nonces key law long twelve_bytes now headers vault_id title email body drill_body scheduled kind
      mode w w' l h later token rcpt w₂ s l₂ v claimed found same_nonce same_text vault tier =
    let (call, sealed) =
      sealed_by_kms ⦃k = operator_kms nonces key⦄ now headers vault_id title email body drill_body scheduled kind mode w w' l h in
    let opens = operator_kms-opens nonces key law long call body l.nonce l.ciphertext sealed in
    let drawn : l.nonce ≡ nonces call = operator_kms-nonce nonces key call body l.nonce l.ciphertext sealed in
    claim_opens ⦃k = operator_kms nonces key⦄ later token l.id rcpt false w₂ s l₂ v claimed found vault body tier refl
      (ground (arith, ap length (same_nonce ∙ drawn), twelve_bytes call))
      (rw same_nonce (rw same_text opens))
