-- ===== src/Db/Vaults.antt =====
-- crates/beacon-db/src/lib.rs: the queries on the table `vault`.
pub mod Claims
pub mod Cooling
use paschal.Base.{
  ℕ, zero, suc, String, Bool, true, false, ◌&&◌, List, [], ◌∷◌, Option, none, some, ℤ, Result, ok,
  err, ok_or, any, coalesce, if◌then◌else◌, ◌==◌,
}
use paschal.Domain.Tier.{Tier}
use paschal.Domain.VaultState
use paschal.Domain.VaultState.{VaultState, active, cooling_off, releasing}
use paschal.Domain.StorageRegion.{StorageRegion}
use paschal.Db.Sql.{select, update, affected, first, insert, order_by}
use paschal.Db.Tables.{Store, Vault, DbError, not_found, row_not_found}

-- WHERE id = $1
abbrev pub by_id : ℕ → Vault → Bool
by_id vault_id v = v.id == vault_id

-- WHERE id = $1 AND state = $2
abbrev pub in_state : ℕ → VaultState → Vault → Bool
in_state vault_id state v = v.id == vault_id && VaultState.eq v.state state

-- The new row has the column defaults of the schema.
unfoldable pub create_vault : ℕ → ℕ → ℕ → String → Tier → ℤ → StorageRegion → Store → Vault × Store
create_vault new_id now principal_id name tier cooling_off_seconds storage_region s =
    (row, record s { vaults = insert row s.vaults })
  where
    row : Vault
    row = record {
      id = new_id;
      principal_id = principal_id;
      name = name;
      tier = tier;
      state = active;
      cooling_off_seconds = cooling_off_seconds;
      storage_region = storage_region;
      last_attestation_at = now;
      cooling_off_started_at = none;
      released_at = none;
      created_at = now;
    }

unfoldable pub fetch_vault : ℕ → Store → Result DbError Vault
fetch_vault vault_id s = ok_or not_found (first (by_id vault_id) s.vaults)

unfoldable pub list_vaults : ℕ → Store → List Vault
list_vaults principal_id s =
    order_by (λ v. v.created_at) (select (λ v. v.principal_id == principal_id) s.vaults)

-- SET state = $1, with the two times kept where NULL is passed.
abbrev pub with_state : VaultState → Option ℕ → Option ℕ → Vault → Vault
with_state state started released v = record v {
  state = state;
  cooling_off_started_at = coalesce started v.cooling_off_started_at;
  released_at = coalesce released v.released_at;
}

-- `fetch_one` of the returned row fails where no vault has the id.
unfoldable pub set_vault_state :
    ℕ → VaultState → Option ℕ → Option ℕ → Store → Result DbError Vault × Store
set_vault_state vault_id state started released s =
    let vaults = update (by_id vault_id) (with_state state started released) s.vaults in
    (ok_or row_not_found (first (by_id vault_id) vaults), record s { vaults = vaults })

unfoldable pub set_vault_storage_region : ℕ → StorageRegion → Store → Result DbError Vault × Store
set_vault_storage_region vault_id region s =
    let vaults = update (by_id vault_id) (λ v. record v { storage_region = region }) s.vaults in
    (ok_or row_not_found (first (by_id vault_id) vaults), record s { vaults = vaults })

unfoldable pub update_vault : ℕ → String → ℤ → Store → Result DbError Vault × Store
update_vault vault_id name seconds s =
    let vaults =
      update (by_id vault_id) (λ v. record v { name = name; cooling_off_seconds = seconds })
        s.vaults in
    (ok_or row_not_found (first (by_id vault_id) vaults), record s { vaults = vaults })

-- `rows_affected() == 1`
unfoldable pub claim_vault_for_release : ℕ → Store → Bool × Store
claim_vault_for_release vault_id s = (
  affected (in_state vault_id cooling_off) s.vaults == 1,
  record s {
    vaults = update (in_state vault_id cooling_off) (λ v. record v { state = releasing }) s.vaults;
  },
)

unfoldable pub claim_vault_cooling_off : ℕ → ℕ → VaultState → Store → Bool × Store
claim_vault_cooling_off now vault_id from s = (
  affected (in_state vault_id from) s.vaults == 1,
  record s {
    vaults =
        update (in_state vault_id from)
          (λ v. record v { state = cooling_off; cooling_off_started_at = some now }) s.vaults;
  },
)

-- The second statement of `record_heartbeat`, and the whole of a buddy's WELL.
unfoldable pub touch_attestation : ℕ → ℕ → Store → Store
touch_attestation now principal_id s = record s {
  vaults =
      update (λ v. v.principal_id == principal_id) (λ v. record v { last_attestation_at = now })
        s.vaults;
}
