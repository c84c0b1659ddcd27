-- ===== src/Db/Vaults/Claims.antt =====
-- The conditional update on `vault.state` by which a worker claims a vault for release.
use paschal.Base.{ℕ, suc, ◌≡◌, ◌≢◌, false, ok, ap, ◌∙◌, arith}
use paschal.Domain.VaultState.{cooling_off, releasing, eq}
use paschal.Domain.VaultState.Codec.{eq→≡, eq_refl}
use paschal.Db.Sql.{affected, affected-update, affected_key, update_none}
use paschal.Db.Race.{wins, wins_once}
use paschal.Db.Tables.{Store, Vault}
use paschal.Db.Vaults.{by_id, in_state, fetch_vault, claim_vault_for_release}

-- The id is the primary key of exactly one row.
abbrev pub HasOneVault : ℕ → Store → Type 0
HasOneVault vault_id s = affected (by_id vault_id) s.vaults ≡ 1

pub claim_vault_for_release_lem :
    (vault_id : ℕ) (s : Store) (v : Vault)
    → HasOneVault vault_id s
    → fetch_vault vault_id s ≡ ok v
    → (claim_vault_for_release vault_id s).0 ≡ eq v.state cooling_off
unfolding claim_vault_for_release fetch_vault
claim_vault_for_release_lem vault_id s v one h =
    ground (arith, affected_key (by_id vault_id) (λ x. eq x.state cooling_off) s.vaults v)

claimed_settles :
    (vault_id : ℕ) (s : Store)
    → let s' = (claim_vault_for_release vault_id s).1 in
      claim_vault_for_release vault_id s' ≡ (false, s')
unfolding claim_vault_for_release eq
claimed_settles vault_id s =
    let done =
      affected-update (in_state vault_id cooling_off) (λ v. record v { state = releasing }) s.vaults
        (λ r. ground arith) in
    rw (
      done,
      update_none (in_state vault_id cooling_off) (λ v. record v { state = releasing }) _ done,
    )

-- However many workers, and at least one, try to claim a vault that has one row and is in
-- COOLING_OFF (the poll loops of several replicas, per-request timers), exactly one of them wins.
pub exactly_one_release_claim :
    (vault_id workers : ℕ) (s : Store) (v : Vault)
    → HasOneVault vault_id s
    → fetch_vault vault_id s ≡ ok v
    → v.state ≡ cooling_off
    → wins (claim_vault_for_release vault_id) (suc workers) s ≡ 1
exactly_one_release_claim vault_id workers s v one h c =
    wins_once (claim_vault_for_release vault_id) workers s
      (claim_vault_for_release_lem vault_id s v one h
        ∙ ap (λ x. eq x cooling_off) c
        ∙ eq_refl cooling_off)
      (claimed_settles vault_id s)

-- And a worker that loses the claim leaves the database as it was.
pub claim_loser_unchanged :
    (vault_id : ℕ) (s : Store) (v : Vault)
    → HasOneVault vault_id s
    → fetch_vault vault_id s ≡ ok v
    → v.state ≢ cooling_off
    → claim_vault_for_release vault_id s ≡ (false, s)
unfolding claim_vault_for_release fetch_vault
claim_loser_unchanged vault_id s v one h c =
    let none_left : affected (in_state vault_id cooling_off) s.vaults ≡ 0 = ground (
      arith,
      affected_key (by_id vault_id) (λ x. eq x.state cooling_off) s.vaults v,
      eq→≡ v.state cooling_off,
    ) in
    rw (
      none_left,
      update_none (in_state vault_id cooling_off) (λ v. record v { state = releasing }) _ none_left,
    )
