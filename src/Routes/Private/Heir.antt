-- ===== src/Routes/Private/Heir.antt =====
-- crates/beacon-api/src/routes.rs: what a letter with a wrong envelope for the heir leaves.
use paschal.Base.{
  ℕ, suc, String, ◌≡◌, refl, true, false, Option, none, some, ok, err, length, ◌==◌, str_eq,
}
use paschal.Base.Bytes.{Bytes}
use paschal.Domain.ReleaseMode.{ReleaseMode}
use paschal.Db.Sql.{first}
use paschal.Db.Tables.{Vault, Letter}
use paschal.Db.Letters as LetterQueries
use paschal.Db.Letters.{letter_by_id, fetch_letter}
use paschal.Db.Letters.Stored.{fetch_letter-seal_letter, seal_letter_keeps}
use paschal.App.World.{World, Platform, bad_request}
use paschal.Routes.Letters.{mode_value}
use paschal.Routes.Private.{
  SealZkLetterReq, HeirReq, seal_input, store_heir, store_by_mode, store_zk_letter,
}

-- A mode that is none of the three is refused.
unknown_mode_refused :
    (now letter_id : ℕ) (email mode : String) (hc hn : Bytes) (heir : HeirReq) (w : World)
    → heir.ciphertext ≡ some (some hc)
    → heir.nonce ≡ some (some hn)
    → heir.mode ≡ some mode
    → str_eq mode "manual" ≡ false
    → str_eq mode "split" ≡ false
    → str_eq mode "operator" ≡ false
    → (length hn == 12) ≡ true
    → store_heir now letter_id email heir heir.ciphertext heir.nonce w ≡ (err bad_request, w)
unfolding store_heir store_by_mode
unknown_mode_refused now letter_id email mode hc hn heir w has_c has_n given m s o long =
    rw (has_c, has_n) (rw long (rw (given, m, s, o) refl))

module _ ⦃p : Platform⦄ where
  -- A letter whose envelope has an unknown mode is refused, and the letter is stored all the same,
  -- without an envelope.
  pub refused_heir_keeps_letter :
      (now pid : ℕ) (vault : Vault) (body : SealZkLetterReq) (ciphertext nonce hc hn : Bytes)
      (mode : String) (release_mode : Option ReleaseMode) (w : World)
      → mode_value body.release_mode ≡ ok release_mode
      → first (letter_by_id (p.random w.drawn)) w.db.letters ≡ none
      → body.heir.ciphertext ≡ some (some hc)
      → body.heir.nonce ≡ some (some hn)
      → (length hn == 12) ≡ true
      → body.heir.mode ≡ some mode
      → str_eq mode "manual" ≡ false
      → str_eq mode "split" ≡ false
      → str_eq mode "operator" ≡ false
      → let (r, w') = store_zk_letter now pid vault body ciphertext nonce w in
        (r ≡ err bad_request)
        × (l : Letter) × (fetch_letter (p.random w.drawn) w'.db ≡ ok l)
        × (l.ciphertext ≡ ciphertext)
        × (w'.db.heir_envelopes ≡ w.db.heir_envelopes)
  unfolding store_zk_letter
  refused_heir_keeps_letter now pid vault body ciphertext nonce hc hn mode release_mode w valid
        fresh has_c has_n long given m s o =
      let id = p.random w.drawn in
      let input = seal_input vault.id body ciphertext nonce release_mode in
      let sealed = LetterQueries.seal_letter id now input w.db in
      let w₁ : World = record w { db = sealed.1; drawn = suc w.drawn } in
      let (same, envelopes, _, _) = seal_letter_keeps id now input w.db in
      rw valid (
        rw
          (unknown_mode_refused now sealed.0.id body.recipient_email mode hc hn body.heir w₁ has_c
            has_n given m s o long)
          (refl, sealed.0, fetch_letter-seal_letter id now input w.db fresh, same, envelopes))
