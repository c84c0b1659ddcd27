-- ===== src/Scheduler/Release/Poll.antt =====
-- The poll loop over the open releases whose deadline is over.
use paschal.Base.{
  ℕ, ◌≡◌, ◌≢◌, refl, ◌∙◌, ap, Bool, true, false, ◌&&◌, ◌||◌, List, [], ◌∷◌, ok, ok_or, arith, any,
  not, ◌==◌, ==→≡, Bool-cases, inl, inr, at_or_before, ==_refl, ◌⊎◌,
}
use paschal.Domain.VaultState.{cooling_off, releasing, eq}
use paschal.Domain.VaultState.Codec.{eq→≡, eq_refl}
use paschal.Db.Sql.{affected, first, first-update_other, affected-update_key}
use paschal.Db.Sql.Lookup.{any-map, any-select, any_narrow, any-ext, any_key}
use paschal.Db.Tables.{Store, Vault, ReleaseEvent, not_found}
use paschal.Db.Vaults.{by_id, in_state, fetch_vault, with_state}
use paschal.Db.Vaults.Claims.{HasOneVault}
use paschal.Db.Releases.{list_due_releases, is_due, is_open, vault_is_cooling}
use paschal.App.World.{World, Platform}
use paschal.App.Monad.{for_each}
use paschal.App.Monad.Laws.{Keeps-for_each}
use paschal.Scheduler.Release.{claim_and_perform, release_due, release_elapse_tick}
use paschal.Scheduler.Release.Frame.{claim_and_perform-Keeps}
use paschal.Scheduler.Release.Perform.{settled}
use paschal.Scheduler.Release.Elapse.{claim_and_perform_lem, claim_and_perform_idle}

-- The vault is there, and not in COOLING_OFF.
abbrev pub IsSettled : ℕ → World → Type 0
IsSettled vault_id w =
    (v : Vault) × (fetch_vault vault_id w.db ≡ ok v) × (eq v.state cooling_off ≡ false)

module _ ⦃p : Platform⦄ where
  claim_and_perform_ne :
      (now vault_id other event_id : ℕ) (is_drill : Bool) (w : World)
      → vault_id ≢ other
      → fetch_vault other (claim_and_perform now vault_id event_id is_drill w).1.db
        ≡ fetch_vault other w.db
  unfolding fetch_vault
  claim_and_perform_ne now vault_id other event_id is_drill w ne = ap (ok_or not_found) (
      claim_and_perform-Keeps (first (by_id other)) vault_id
        (λ state started released_at vs.
          first-update_other (by_id other) (by_id vault_id) (with_state state started released_at)
            vs (λ r. refl) (λ r h. ground arith))
        (λ vs.
          first-update_other (by_id other) (in_state vault_id cooling_off)
            (λ v. record v { state = releasing }) vs (λ r. refl) (λ r h. ground arith))
        now event_id is_drill w)

  claim_and_perform-HasOneVault :
      (now vault_id other event_id : ℕ) (is_drill : Bool) (w : World)
      → HasOneVault other w.db
      → HasOneVault other (claim_and_perform now vault_id event_id is_drill w).1.db
  claim_and_perform-HasOneVault now vault_id other event_id is_drill w one =
      claim_and_perform-Keeps (affected (by_id other)) vault_id
        (λ state started released_at vs.
          affected-update_key (by_id other) (by_id vault_id) (with_state state started released_at)
            vs (λ r. refl))
        (λ vs.
          affected-update_key (by_id other) (in_state vault_id cooling_off)
            (λ v. record v { state = releasing }) vs (λ r. refl))
        now event_id is_drill w
      ∙ one

  -- A poll leaves a vault as it is unless the vault has an open release whose deadline is over.
  pub poll_waits_for_deadline :
      (now vault_id : ℕ) (w : World)
      → any
          (λ re. re.vault_id == vault_id && (is_open re && at_or_before re.cooling_off_ends_at now))
          w.db.release_events
        ≡ false
      → fetch_vault vault_id (release_elapse_tick now w).1.db ≡ fetch_vault vault_id w.db
  unfolding release_elapse_tick release_due list_due_releases
  poll_waits_for_deadline now vault_id w h =
      Keeps-for_each (λ w. fetch_vault vault_id w.db) (λ d. d.0 == vault_id)
        (list_due_releases now w.db) (release_due now)
        (λ d ne w'.
          claim_and_perform_ne now d.0 vault_id d.1 d.2 w' (λ e. ground (arith, ==_refl vault_id)))
        (any-map (λ d. d.0 == vault_id) _ _
          ∙ any-select _ _ w.db.release_events
          ∙ any_narrow _ (λ re. re.vault_id == vault_id && is_due now w.db re) w.db.release_events
              (λ re q. ground arith) h)
        w

  claim_and_perform-IsSettled :
      (now vault_id event_id : ℕ) (is_drill : Bool) (w : World) (v : Vault)
      → HasOneVault vault_id w.db
      → fetch_vault vault_id w.db ≡ ok v
      → IsSettled vault_id (claim_and_perform now vault_id event_id is_drill w).1
  unfolding eq
  claim_and_perform-IsSettled now vault_id event_id is_drill w v one h =
      elim (Bool-cases (eq v.state cooling_off)) [
        | inl cools ↦ (
          settled now is_drill v,
          (claim_and_perform_lem now vault_id event_id is_drill w v one h
              (eq→≡ v.state cooling_off cools)).1,
          ground arith,
        )
        | inr calm ↦ (
          v,
          ap (λ r. fetch_vault vault_id r.1.db)
                (claim_and_perform_idle now vault_id event_id is_drill w v one h
                  (λ c. ground (arith, eq_refl cooling_off)))
              ∙ h,
          calm,
        )
      ]

  release_due-IsSettled :
      (now vault_id : ℕ) (d : ℕ × ℕ × Bool) (w : World) (v : Vault)
      → HasOneVault vault_id w.db
      → fetch_vault vault_id w.db ≡ ok v
      → (d.0 ≡ vault_id) ⊎ (eq v.state cooling_off ≡ false)
      → IsSettled vault_id (release_due now d w).1
  unfolding release_due
  release_due-IsSettled now vault_id d w v one h c = elim (Bool-cases (d.0 == vault_id)) [
    | inr ne ↦ (
      v,
      claim_and_perform_ne now d.0 vault_id d.1 d.2 w (λ e. ground (arith, ==_refl vault_id)) ∙ h,
      ground (arith, ==_refl vault_id),
    )
    | inl same ↦
        rw (==→≡ d.0 vault_id same) (claim_and_perform-IsSettled now vault_id d.1 d.2 w v one h)
  ]

  releases-IsSettled :
      (now vault_id : ℕ) (due : List (ℕ × ℕ × Bool)) (w : World) (v : Vault)
      → HasOneVault vault_id w.db
      → fetch_vault vault_id w.db ≡ ok v
      → (any (λ d. d.0 == vault_id) due ≡ true) ⊎ (eq v.state cooling_off ≡ false)
      → IsSettled vault_id (for_each due (release_due now) w).1
  unfolding release_due
  releases-IsSettled now vault_id [] w v one h c = (v, h, ground arith)
  releases-IsSettled now vault_id (d ∷ due) w v one h c =
      elim (Bool-cases (d.0 == vault_id || not (eq v.state cooling_off))) [
        | inl now_settled ↦
            let (v', h', calm) =
              release_due-IsSettled now vault_id d w v one h (head_or_calm now_settled) in
            releases-IsSettled now vault_id due w1 v' one1 h' (inr calm)
        | inr later ↦
            releases-IsSettled now vault_id due w1 v one1
              (claim_and_perform_ne now d.0 vault_id d.1 d.2 w
                  (λ e. ground (arith, ==_refl vault_id))
                ∙ h)
              (in_tail later c)
      ]
    where
      w1 : World
      w1 = (release_due now d w).1

      one1 : HasOneVault vault_id w1.db
      one1 = claim_and_perform-HasOneVault now d.0 vault_id d.1 d.2 w one

      head_or_calm :
          (d.0 == vault_id || not (eq v.state cooling_off)) ≡ true
          → (d.0 ≡ vault_id) ⊎ (eq v.state cooling_off ≡ false)
      head_or_calm e = ground (arith, ==→≡ d.0 vault_id)

      in_tail :
          (d.0 == vault_id || not (eq v.state cooling_off)) ≡ false
          → (any (λ d. d.0 == vault_id) (d ∷ due) ≡ true) ⊎ (eq v.state cooling_off ≡ false)
          → (any (λ d. d.0 == vault_id) due ≡ true) ⊎ (eq v.state cooling_off ≡ false)
      in_tail e c = ground arith

  due_if_cooling :
      (now vault_id : ℕ) (s : Store) (re : ReleaseEvent)
      → vault_is_cooling vault_id s.vaults ≡ true
      → (re.vault_id == vault_id && is_due now s re)
        ≡ (re.vault_id == vault_id && (is_open re && at_or_before re.cooling_off_ends_at now))
  due_if_cooling now vault_id s re cools = elim (Bool-cases (re.vault_id == vault_id)) [
    | inl same ↦ rw (==→≡ re.vault_id vault_id same) (rw cools (ground arith))
    | inr other ↦ rw other refl
  ]

  -- A poll takes a vault that has one row, and an open release with an elapsed deadline, out of
  -- COOLING_OFF.
  pub poll_releases_due :
      (now vault_id : ℕ) (w : World) (v : Vault)
      → HasOneVault vault_id w.db
      → fetch_vault vault_id w.db ≡ ok v
      → any
          (λ re. re.vault_id == vault_id && (is_open re && at_or_before re.cooling_off_ends_at now))
          w.db.release_events
        ≡ true
      → IsSettled vault_id (release_elapse_tick now w).1
  unfolding release_elapse_tick list_due_releases fetch_vault
  poll_releases_due now vault_id w v one h due =
      releases-IsSettled now vault_id (list_due_releases now w.db) w v one h
        (elim (Bool-cases (eq v.state cooling_off)) [
          | inr calm ↦ inr calm
          | inl cools ↦ inl (
              any-map (λ d. d.0 == vault_id) _ _
              ∙ any-select _ _ w.db.release_events
              ∙ any-ext _ _ w.db.release_events (λ re. due_if_cooling now vault_id w.db re (
                  any_key (by_id vault_id) (λ x. eq x.state cooling_off) w.db.vaults v one
                    (ground arith)
                  ∙ cools))
              ∙ due)
        ])
