-- ===== src/Db/Presence/Alive.antt =====
-- crates/beacon-db/src/lib.rs: what a heartbeat says, and for whom.
use paschal.Base.{
  ℕ, ◌≤◌, ◌≡◌, refl, ap, ◌∙◌, String, Bool, true, List, [], ◌∷◌, some, ok, ok_or, arith, leb, ◌==◌,
  ==_refl, All, if◌then◌else◌, Bool-cases, inl, inr,
}
use paschal.Db.Sql.{select, update, first, insert, latest, first-update, All-select}
use paschal.Db.Tables.{Store, Vault, Heartbeat, not_found}
use paschal.Db.Vaults.{by_id, fetch_vault}
use paschal.Db.Presence.{record_heartbeat, last_heartbeat}

select-insert {ℓ} :
    {A : Type ℓ} (p : A → Bool) (row : A) (rows : List A)
    → p row ≡ true
    → select p (insert row rows) ≡ insert row (select p rows)
unfolding select insert
select-insert p row [] h = rw h refl
select-insert p row (r ∷ rs) h = ground (arith, select-insert p row rs h)

-- A row with the greatest key that comes last has the key of the latest.
latest-insert {ℓ} :
    {A : Type ℓ} (key : A → ℕ) (row : A) (rows : List A)
    → All (λ r. key r ≤ key row) rows
    → (x : A) × (latest key (insert row rows) ≡ some x) × (key x ≡ key row)
unfolding latest insert
latest-insert key row [] h = (row, refl, refl)
latest-insert key row (r ∷ rs) h =
    let (x, found, same) = latest-insert key row rs h.1 in
    rw found (elim (Bool-cases (leb (key x) (key r))) [
      | inl e ↦ rw e (r, refl, ground (arith, h.0, same, e))
      | inr e ↦ rw e (x, refl, same)
    ])

attested :
    (vault_id : ℕ) (p : Vault → Bool) (now : ℕ) (v : Vault) (vaults : List Vault)
    → first (by_id vault_id) vaults ≡ some v
    → first (by_id vault_id) (update p (λ v. record v { last_attestation_at = now }) vaults)
      ≡ some (if p v then record v { last_attestation_at = now } else v)
attested vault_id p now v vaults h =
    first-update (by_id vault_id) p (λ v. record v { last_attestation_at = now }) vaults (λ v. refl)
    ∙ rw h refl

-- A heartbeat is the principal's last one, if none was received later than now, and it attests
-- every vault of the principal and no other vault.
pub heartbeat_attests :
    (now principal_id : ℕ) (via : String) (s : Store)
    → All (λ h. h.received_at ≤ now) s.heartbeats
    → let s' = (record_heartbeat now principal_id via s).1 in
      (last_heartbeat principal_id s' ≡ some now)
      × ((vault_id : ℕ) (v : Vault)
          → fetch_vault vault_id s ≡ ok v
          → fetch_vault vault_id s'
            ≡ ok (
                if v.principal_id == principal_id
                then record v { last_attestation_at = now }
                else v))
unfolding record_heartbeat last_heartbeat fetch_vault
heartbeat_attests now principal_id via s h =
    let row : Heartbeat = record { principal_id = principal_id; via = via; received_at = now } in
    let mine = select (λ r. r.principal_id == principal_id) s.heartbeats in
    let (x, found, same) =
      latest-insert (λ r. r.received_at) row mine
        (All-select (λ r. r.received_at ≤ now) (λ r. r.principal_id == principal_id) s.heartbeats
          h) in
    (
      rw
          (select-insert (λ r. r.principal_id == principal_id) row s.heartbeats
            (==_refl principal_id))
          (rw found (ap some same)),
      λ vault_id v was. ap (ok_or not_found) (
          attested vault_id (λ v. v.principal_id == principal_id) now v s.vaults
            (ground (arith, was))),
    )
