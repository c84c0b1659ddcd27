-- ===== src/Routes/Recovery/Redeem.antt =====
-- crates/beacon-api/src/passkey.rs: what a recovery code gives.
use paschal.Base.{
  ℕ, String, ◌≡◌, refl, ap, sym, subst, ◌∙◌, false, List, [], ◌∷◌, ◌++◌, Option, none, some, ok,
  err, arith,
}
use paschal.Base.Bytes.{Bytes, bytes_eq, bytes_eq→≡}
use paschal.App.World.{World, bad_request}
use paschal.App.Monad.{Api, ◌>>=◌, pure, ask, ask_result, require, ensure}
use paschal.App.Monad.Laws.{Keeps, Keeps->>=, ok->>=, ok-require, ok-ensure}
use paschal.Domain.Tier.{Tier, honest_operator, zero_knowledge}
use paschal.Db.Tables as Rows
use paschal.Db.Tables.{Vault, Letter, RecoveryKey}
use paschal.Db.Vaults.{list_vaults}
use paschal.Db.Letters.{list_letters, fetch_letter}
use paschal.Db.Envelopes.{get_principal_recovery_by_email, get_principal_recovery_key_by_email}
use paschal.Routes.Passkeys.{Codes}
use paschal.Db.Envelopes as Envelopes
use paschal.Routes.Recovery.{
  RecoveryVaultView, vault_view, letters_of, open_vault, vaults_of, check_code, RecoveryRedeemResp,
  passkey_recovery_validate, recovery_redeem,
}

-- Reading changes nothing, whatever it finds.
letters_of-Keeps : (lms : List Letter) → Keeps (λ w. w) (letters_of lms)
unfolding letters_of
letters_of-Keeps [] = λ w. refl
letters_of-Keeps (lm ∷ lms) =
    Keeps->>= (λ w. w) (ask_result (fetch_letter lm.id)) _ (λ w. refl)
      λ full. Keeps->>= (λ w. w) (letters_of lms) _ (letters_of-Keeps lms) λ letters w. refl

open_vault-Keeps :
    (tier : Tier) (vault : Vault) (found : Option (List ℕ × List ℕ))
    → Keeps (λ w. w) (open_vault tier vault found)
unfolding open_vault
open_vault-Keeps honest_operator vault found = λ w. refl
open_vault-Keeps zero_knowledge vault none = λ w. refl
open_vault-Keeps zero_knowledge vault (some envelope) =
    Keeps->>= {B = List RecoveryVaultView} (λ w. w) (ask (list_letters vault.id))
      (λ listed. letters_of listed >>= λ letters. pure (vault_view vault letters envelope ∷ []))
      (λ w. refl)
      λ listed.
        Keeps->>= {B = List RecoveryVaultView} (λ w. w) (letters_of listed)
          (λ letters. pure (vault_view vault letters envelope ∷ [])) (letters_of-Keeps listed)
          λ letters w. refl

vaults_of-Keeps : (vaults : List Vault) → Keeps (λ w. w) (vaults_of vaults)
unfolding vaults_of
vaults_of-Keeps [] = λ w. refl
vaults_of-Keeps (vault ∷ vaults) =
    Keeps->>= {B = List RecoveryVaultView} (λ w. w)
      (ask (Envelopes.get_vault_prk_envelope vault.id)) rest (λ w. refl)
      λ found.
        Keeps->>= {B = List RecoveryVaultView} (λ w. w) (open_vault vault.tier vault found) joined
          (open_vault-Keeps vault.tier vault found)
          λ view.
            Keeps->>= (λ w. w) (vaults_of vaults) (λ views. pure (view ++ views))
              (vaults_of-Keeps vaults) λ views w. refl
  where
    joined : List RecoveryVaultView → Api (List RecoveryVaultView)
    joined view = vaults_of vaults >>= λ views. pure (view ++ views)

    rest : Option (List ℕ × List ℕ) → Api (List RecoveryVaultView)
    rest found = open_vault vault.tier vault found >>= joined

module _ ⦃c : Codes⦄ where
  ok-check_code :
      (email : String) (code : Bytes) (w w' : World) (pid : ℕ) (recovery : Rows.Recovery)
      → check_code email code w ≡ (ok (pid, recovery), w')
      → (get_principal_recovery_by_email email w.db ≡ some (pid, recovery))
        × (c.hmac recovery.code_salt code ≡ recovery.code_verifier)
        × (w ≡ w')
  unfolding check_code
  ok-check_code email code w w' pid recovery h =
      let ((pid', row), w₂, e₂, r₂) =
        ok->>= (require bad_request (get_principal_recovery_by_email email w.db)) _ w w'
          (pid, recovery) h in
      let (u, w₃, e₃, r₃) =
        ok->>= (ensure (bytes_eq (c.hmac row.code_salt code) row.code_verifier) bad_request) _ w₂ w'
          (pid, recovery) r₂ in
      let (found, s₂) =
        ok-require bad_request (get_principal_recovery_by_email email w.db) w w₂ (pid', row) e₂ in
      let (equal, s₃) =
        ok-ensure (bytes_eq (c.hmac row.code_salt code) row.code_verifier) bad_request w₂ w₃ u e₃ in
      let same : row ≡ recovery = ground (arith, ap (λ r. r.0) r₃) in
      (
        found ∙ ground (arith, ap (λ r. r.0) r₃),
        subst (λ r. c.hmac r.code_salt code ≡ r.code_verifier) same
            (bytes_eq→≡ (c.hmac row.code_salt code) row.code_verifier equal),
        s₂ ∙ s₃ ∙ ap (λ r. r.1) r₃,
      )

  -- A redemption that succeeds was asked for with the recovery code of the address: its HMAC under
  -- the stored salt is the stored verifier. The answer has the salt, the wrap and the nonce that the
  -- stored recovery key has for the code, and nothing changes: no session is made.
  pub redeemed_with_code :
      (email : String) (code : Bytes) (w w' : World) (resp : RecoveryRedeemResp)
      → recovery_redeem email code w ≡ (ok resp, w')
      → (pid : ℕ) × (recovery : Rows.Recovery) × (prk : RecoveryKey)
        × (get_principal_recovery_by_email email w.db ≡ some (pid, recovery))
        × (c.hmac recovery.code_salt code ≡ recovery.code_verifier)
        × (get_principal_recovery_key_by_email email w.db ≡ some prk)
        × (resp.code_salt ≡ prk.code_salt)
        × (resp.prk_code_ct ≡ prk.prk_code_ct)
        × (resp.prk_code_nonce ≡ prk.prk_code_nonce)
        × (w' ≡ w)
  unfolding recovery_redeem
  redeemed_with_code email code w w' resp h =
      let ((pid, recovery), w₁, e₁, r₁) = ok->>= (check_code email code) _ w w' resp h in
      let (prk, w₂, e₂, r₂) =
        ok->>= (require bad_request (get_principal_recovery_key_by_email email w₁.db)) _ w₁ w' resp
          r₁ in
      let (views, w₃, e₃, r₃) = ok->>= (vaults_of (list_vaults pid w₂.db)) _ w₂ w' resp r₂ in
      let (found, right, s₁) = ok-check_code email code w w₁ pid recovery e₁ in
      let (key, s₂) =
        ok-require bad_request (get_principal_recovery_key_by_email email w₁.db) w₁ w₂ prk e₂ in
      (
        pid,
        recovery,
        prk,
        found,
        right,
        ap (λ v. get_principal_recovery_key_by_email email v.db) s₁ ∙ key,
        ground (arith, ap (λ r. r.0) r₃),
        ground (arith, ap (λ r. r.0) r₃),
        ground (arith, ap (λ r. r.0) r₃),
        sym (ap (λ r. r.1) r₃)
            ∙ sym (ap (λ r. r.1) e₃)
            ∙ vaults_of-Keeps (list_vaults pid w₂.db) w₂
            ∙ sym (s₁ ∙ s₂),
      )

  -- A wrong code is refused, and nothing changes.
  wrong_code_is_refused :
      (email : String) (code : Bytes) (pid : ℕ) (recovery : Rows.Recovery) (w : World)
      → get_principal_recovery_by_email email w.db ≡ some (pid, recovery)
      → bytes_eq (c.hmac recovery.code_salt code) recovery.code_verifier ≡ false
      → (recovery_redeem email code w ≡ (err bad_request, w))
        × (passkey_recovery_validate email code w ≡ (err bad_request, w))
  unfolding recovery_redeem passkey_recovery_validate check_code
  wrong_code_is_refused email code pid recovery w found wrong =
      (rw found (rw wrong refl), rw found (rw wrong refl))
