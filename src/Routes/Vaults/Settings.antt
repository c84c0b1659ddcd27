-- ===== src/Routes/Vaults/Settings.antt =====
-- crates/beacon-api/src/routes.rs: what a change of a vault's settings leaves.
use paschal.Base.{
  ℕ, ◌≡◌, ap, List, [], ◌∷◌, ◌==◌, Bool-cases, String, false, not, Option, some, ok, ℤ, pos, ltbℤ,
  arith, inl, inr,
}
use paschal.Base.Text.{is_empty, trim}
use paschal.Domain.VaultState
use paschal.Domain.VaultState.{released}
use paschal.Db.Sql.{first, update}
use paschal.Db.Tables.{Vault, Store}
use paschal.Db.Vaults as VaultQueries
use paschal.Db.Vaults.{by_id}
use paschal.App.World.{World, Platform, conflict, bad_request}
use paschal.App.Monad.{ensure, lift_result}
use paschal.App.Monad.Laws.{ok->>=, ok-ensure}
use paschal.Routes.Vaults.{owned_vault, update_vault, unwrap_or}

-- The row that a change of the settings leaves under its id.
first-changed :
    (vault_id : ℕ) (name : String) (seconds : ℤ) (rows : List Vault) (v : Vault)
    → first (by_id vault_id) (
        update (by_id vault_id) (λ v. record v { name = name; cooling_off_seconds = seconds }) rows)
      ≡ some v
    → (v.name ≡ name) × (v.cooling_off_seconds ≡ seconds)
unfolding first update
first-changed vault_id name seconds [] v h = absurd (ground (arith, h))
first-changed vault_id name seconds (r ∷ rows) v h = elim (Bool-cases (r.id == vault_id)) [
  | inl e ↦ ground (arith, e, h)
  | inr e ↦ first-changed vault_id name seconds rows v (ground (arith, e, h))
]

-- The row that the query returns has the new settings.
update_vault-sets :
    (vault_id : ℕ) (name : String) (seconds : ℤ) (s : Store) (v : Vault)
    → lift_result (VaultQueries.update_vault vault_id name seconds s).0 ≡ ok v
    → (v.name ≡ name) × (v.cooling_off_seconds ≡ seconds)
unfolding VaultQueries.update_vault
update_vault-sets vault_id name seconds s v h =
    first-changed vault_id name seconds s.vaults v (ground (arith, h))

module _ ⦃p : Platform⦄ where
  -- A change of settings that succeeds was asked for by the owner of a vault that is not RELEASED, and
  -- the vault now has a name that is not blank and a cooling-off of at least an hour.
  updated_vault_waits :
      (now : ℕ) (headers : Option ℕ) (vault_id : ℕ) (name : String) (seconds : Option ℤ)
      (w w' : World) (v : Vault)
      → update_vault now headers vault_id name seconds w ≡ (ok v, w')
      → (owner : ℕ × Vault) × ((owned_vault now headers vault_id w).0 ≡ ok owner)
        × (VaultState.eq owner.1.state released ≡ false)
        × (is_empty v.name ≡ false)
        × (ltbℤ v.cooling_off_seconds (pos 3600) ≡ false)
  unfolding update_vault
  updated_vault_waits now headers vault_id name seconds w w' v h =
      let (owner, w1, e1, r1) = ok->>= (owned_vault now headers vault_id) _ w w' v h in
      let (u2, w2, e2, r2) =
        ok->>= (ensure (not (VaultState.eq owner.1.state released)) conflict) _ w1 w' v r1 in
      let (u3, w3, e3, r3) =
        ok->>= (ensure (not (is_empty (trim name))) bad_request) _ w2 w' v r2 in
      let given = unwrap_or seconds owner.1.cooling_off_seconds in
      let (u4, w4, e4, r4) =
        ok->>= (ensure (not (ltbℤ given (pos 3600))) bad_request) _ w3 w' v r3 in
      let (named, waits) =
        update_vault-sets vault_id (trim name) given w4.db v (ap (λ r. r.0) r4) in
      (
        owner,
        ap (λ r. r.0) e1,
        ground (
          arith,
          (ok-ensure (not (VaultState.eq owner.1.state released)) conflict w1 w2 u2 e2).0,
        ),
        rw named
            (ground (arith, (ok-ensure (not (is_empty (trim name))) bad_request w2 w3 u3 e3).0)),
        rw waits
            (ground (arith, (ok-ensure (not (ltbℤ given (pos 3600))) bad_request w3 w4 u4 e4).0)),
      )
