-- ===== src/Db/Vaults/Cooling.antt =====
-- The conditional update by which a vault enters COOLING_OFF from the state that was observed.
use paschal.Base.{ℕ, ◌≡◌, ◌≢◌, refl, ◌∙◌, ap, true, false, some, ok, ok_or, arith}
use paschal.Domain.VaultState.{VaultState, cooling_off, eq}
use paschal.Domain.VaultState.Codec.{eq→≡, eq_refl}
use paschal.Db.Sql.{update, affected, first, first-update, first_holds, affected_key, update_none}
use paschal.Db.Sql.Lookup.{any-update_key}
use paschal.Db.Tables.{Store, Vault, not_found}
use paschal.Db.Vaults.{by_id, in_state, fetch_vault, claim_vault_cooling_off}
use paschal.Db.Vaults.Claims.{HasOneVault}
use paschal.Db.Releases.{vault_is_cooling}

abbrev pub cooled : ℕ → Vault → Vault
cooled now v = record v { state = cooling_off; cooling_off_started_at = some now }

module _ (now vault_id : ℕ) (from : VaultState) (s : Store) (v : Vault)
    (one : HasOneVault vault_id s) (h : fetch_vault vault_id s ≡ ok v) where
  pub claim_vault_cooling_off_lem :
      (claim_vault_cooling_off now vault_id from s).0 ≡ eq v.state from
  unfolding claim_vault_cooling_off fetch_vault
  claim_vault_cooling_off_lem =
      ground (arith, affected_key (by_id vault_id) (λ x. eq x.state from) s.vaults v)

  pub cooling_off_loser_unchanged :
      v.state ≢ from → claim_vault_cooling_off now vault_id from s ≡ (false, s)
  unfolding claim_vault_cooling_off fetch_vault
  cooling_off_loser_unchanged c =
      rw (none_left, update_none (in_state vault_id from) (cooled now) _ none_left) refl
    where
      none_left : affected (in_state vault_id from) s.vaults ≡ 0
      none_left = ground (
        arith,
        affected_key (by_id vault_id) (λ x. eq x.state from) s.vaults v,
        eq→≡ v.state from,
      )

  pub fetch_vault-cooling_off :
      v.state ≡ from
      → fetch_vault vault_id (claim_vault_cooling_off now vault_id from s).1 ≡ ok (cooled now v)
  unfolding claim_vault_cooling_off fetch_vault
  fetch_vault-cooling_off c = ap (ok_or not_found) found
    where
      found :
          first (by_id vault_id) (update (in_state vault_id from) (cooled now) s.vaults)
          ≡ some (cooled now v)
      found =
          first-update (by_id vault_id) (in_state vault_id from) (cooled now) s.vaults (λ r. refl)
          ∙ ground (arith, first_holds (by_id vault_id) s.vaults v, eq_refl from)

  pub vault_is_cooling-cooling_off :
      v.state ≡ from
      → vault_is_cooling vault_id (claim_vault_cooling_off now vault_id from s).1.vaults ≡ true
  unfolding claim_vault_cooling_off fetch_vault
  vault_is_cooling-cooling_off c =
      any-update_key (by_id vault_id) (λ x. eq x.state cooling_off) (in_state vault_id from)
        (cooled now) s.vaults v (λ r. refl) one (ground arith)
      ∙ ground (arith, first_holds (by_id vault_id) s.vaults v, eq_refl from, eq_refl cooling_off)
