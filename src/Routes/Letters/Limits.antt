-- ===== src/Routes/Letters/Limits.antt =====
-- crates/beacon-api/src/routes.rs: which letters are sealed.
use paschal.Base.{
  ℕ, ◌+◌, ◌*◌, ◌≤◌, ◌≡◌, refl, sym, ◌∙◌, ap, subst, String, Bool, true, ◌||◌, ◌&&◌, ◌==◌, ==→≡, str_eq, is_some, Option, none, some, Option-cases, Result, ok, err, ltb, arith,
  Bool-cases, inl, inr,
}
use paschal.Base.Bytes.{Bytes}
use paschal.Domain.VaultState
use paschal.Domain.VaultState.{active}
use paschal.Domain.SubscriptionState.{allows_authoring}
use paschal.Domain.Plans.{self_hosted, plan_features}
use paschal.Db.Tables.{Letter, Vault}
use paschal.App.World.{World, Platform, ApiError, forbidden, conflict, not_found}
use paschal.App.Monad.{ensure, ask_result}
use paschal.App.Monad.Laws.{ok->>=, ok-ensure, ok-ask_result, ok_components}
use paschal.Db.Subscriptions.{fetch_subscription}
use paschal.Db.Letters.{letter_count}
use paschal.Db.Vaults.{fetch_vault}
use paschal.Db.Accounts.{principal_for_session}
use paschal.Domain.VaultState.Codec.{eq→≡}
use paschal.Routes.Auth.{current_principal}
use paschal.Routes.Vaults.{owned_vault, lift, as_u32}
use paschal.Routes.Letters.{
  Kms, validate_letter_kind, validate_release_mode, within_horizon, may_seal, seal_letter,
}

ok-lift :
    {A : Type 0} (r : Result ApiError A) (w w' : World) (a : A)
    → lift r w ≡ (ok a, w')
    → (r ≡ ok a) × (w ≡ w')
ok-lift (ok b) w w' a h = (ground (arith, ap (λ r. r.0) h), ap (λ r. r.1) h)
ok-lift (err e) w w' a h = absurd (ground (arith, ap (λ r. r.0) h))

-- A date that passes lies between now and the horizon.
within_horizon_lem :
    (now days t : ℕ)
    → within_horizon now days (some t) ≡ ok tt
    → (now ≤ t) × (t ≤ now + days * 86400)
unfolding within_horizon
within_horizon_lem now days t h = elim (Bool-cases (ltb t now)) [
  | inl e ↦ absurd (ground (arith, e, h))
  | inr e ↦ elim (Bool-cases (ltb (now + days * 86400) t)) [
    | inl l ↦ absurd (ground (arith, e, l, h))
    | inr l ↦ (ground arith, ground arith)
  ]
]

-- The kinds of a letter, and its modes, where a letter that is only scheduled has a date.
abbrev pub known_kind : Option String → Bool
known_kind none = true
known_kind (some k) =
    str_eq k "MESSAGE" || str_eq k "CREDENTIAL_BUNDLE" || str_eq k "FILE_ARCHIVE" || str_eq k "ACTION"
    || str_eq k "WILL_LOCATOR" || str_eq k "VIDEO_MESSAGE" || str_eq k "AUDIO_MESSAGE"
    || str_eq k "MEDIA_PLAYLIST"

abbrev pub known_mode : Option String → Option ℕ → Bool
known_mode none scheduled = true
known_mode (some m) scheduled =
    str_eq m "SIGNAL_OR_SCHEDULED" || str_eq m "SIGNAL_ONLY" || str_eq m "EVENT_ON_DEMAND"
    || (str_eq m "SCHEDULED_ONLY" && is_some scheduled)

validate_letter_kind-known : (kind : Option String) → validate_letter_kind kind ≡ ok tt → known_kind kind ≡ true
unfolding validate_letter_kind
validate_letter_kind-known none h = refl
validate_letter_kind-known (some k) h = ground (arith, h)

validate_release_mode-known :
    (mode : Option String) (scheduled : Option ℕ) → validate_release_mode mode scheduled ≡ ok tt
    → known_mode mode scheduled ≡ true
unfolding validate_release_mode
validate_release_mode-known none scheduled h = refl
validate_release_mode-known (some m) none h = ground (arith, h)
validate_release_mode-known (some m) (some t) h = ground (arith, h)

-- What the checks in front of the sealing let through.
abbrev pub MaySeal : ℕ → Vault → Option ℕ → Option String → Option String → Type 0
MaySeal now vault scheduled kind mode =
    (vault.state ≡ active)
    × (known_kind kind ≡ true)
    × (known_mode mode scheduled ≡ true)
    × ((t : ℕ) → scheduled ≡ some t → (now ≤ t) × (t ≤ now + 36500 * 86400))

may_seal-MaySeal :
    (now pid : ℕ) (vault : Vault) (scheduled : Option ℕ) (kind mode : Option String) (w w' : World)
    (u : Unit {0})
    → may_seal now pid vault scheduled kind mode w ≡ (ok u, w')
    → MaySeal now vault scheduled kind mode
unfolding may_seal plan_features
may_seal-MaySeal now pid vault scheduled kind mode w w' u h =
    let (u2, w2, e2, r2) = ok->>= (lift (validate_letter_kind kind)) _ w w' u h in
    let (u3, w3, e3, r3) = ok->>= (lift (validate_release_mode mode scheduled)) _ w2 w' u r2 in
    let (sub, w4, e4, r4) = ok->>= (ask_result (fetch_subscription pid)) _ w3 w' u r3 in
    let (u5, w5, e5, r5) = ok->>= (ensure (allows_authoring sub.state) forbidden) _ w4 w' u r4 in
    let (u6, w6, e6, r6) =
      ok->>= (ensure (VaultState.eq vault.state active) conflict) _ w5 w' u r5 in
    let few =
      ltb (as_u32 (letter_count vault.id w6.db))
        (plan_features self_hosted).max_letters_per_vault in
    let (u8, w8, e8, r8) =
      ok->>= (ensure few forbidden) (λ _. lift (within_horizon now 36500 scheduled)) w6 w' u r6 in
    (
      eq→≡ vault.state active (ok-ensure (VaultState.eq vault.state active) conflict w5 w6 u6 e6).0,
      validate_letter_kind-known kind (ok-lift (validate_letter_kind kind) w w2 u2 e2).0,
      validate_release_mode-known mode scheduled
          (ok-lift (validate_release_mode mode scheduled) w2 w3 u3 e3).0,
      λ t given. within_horizon_lem now 36500 t (
          subst (λ o. within_horizon now 36500 o ≡ ok tt) given
            (ok-lift (within_horizon now 36500 scheduled) w8 w' u r8).0),
    )

module _ ⦃p : Platform⦄ where
  current_principal_reads :
      (now : ℕ) (headers : Option ℕ) (w : World) → (current_principal now headers w).1 ≡ w
  unfolding current_principal
  current_principal_reads now none w = refl
  current_principal_reads now (some token) w =
      elim (Option-cases (principal_for_session now (p.hash_token token) w.db)) [
        | inl e ↦ rw e refl
        | inr (pid, e) ↦ rw e refl
      ]

  ok-owned_vault :
      (now : ℕ) (headers : Option ℕ) (vault_id : ℕ) (w w' : World) (owner : ℕ × Vault)
      → owned_vault now headers vault_id w ≡ (ok owner, w')
      → ((current_principal now headers w).0 ≡ ok owner.0)
        × (fetch_vault vault_id w.db ≡ ok owner.1)
        × (owner.1.principal_id ≡ owner.0)
  unfolding owned_vault
  ok-owned_vault now headers vault_id w w' (pid', v') h =
      let (pid, w1, e1, r1) = ok->>= (current_principal now headers) _ w w' (pid', v') h in
      let (v, w2, e2, r2) = ok->>= (ask_result (fetch_vault vault_id)) _ w1 w' (pid', v') r1 in
      let (u, w3, e3, r3) = ok->>= (ensure (v.principal_id == pid) not_found) _ w2 w' (pid', v') r2 in
      let (same_pid, same_v) = ok_components pid pid' v v' w3 w' r3 in
      let reads : w1 ≡ w = sym (ap (λ r. r.1) e1) ∙ current_principal_reads now headers w in
      (
        ap (λ r. r.0) e1 ∙ ap ok same_pid,
        ap (λ x. fetch_vault vault_id x.db) (sym reads) ∙ (ok-ask_result (fetch_vault vault_id) w1 w2 v e2).0 ∙ ap ok same_v,
        ap (λ x. x.principal_id) (sym same_v)
            ∙ ==→≡ v.principal_id pid (ok-ensure (v.principal_id == pid) not_found w2 w3 u e3).0
            ∙ same_pid,
      )

module _ ⦃p : Platform⦄ ⦃k : Kms⦄ where
  -- A letter that was sealed was asked for in a session of the vault's principal, in an ACTIVE vault,
  -- with a known kind and a known mode, a SCHEDULED_ONLY letter with a date; and a date that is given is
  -- neither in the past nor more than 36,500 days ahead.
  pub sealed_letter_is_valid :
      (now : ℕ) (headers : Option ℕ) (vault_id : ℕ) (title email : String) (body : Bytes)
      (drill_body : Option Bytes) (scheduled : Option ℕ) (kind mode : Option String) (w w' : World)
      (l : Letter)
      → seal_letter now headers vault_id title email body drill_body scheduled kind mode w
        ≡ (ok l, w')
      → (owner : ℕ × Vault) × ((current_principal now headers w).0 ≡ ok owner.0)
        × (fetch_vault vault_id w.db ≡ ok owner.1)
        × (owner.1.principal_id ≡ owner.0)
        × MaySeal now owner.1 scheduled kind mode
  unfolding seal_letter
  sealed_letter_is_valid now headers vault_id title email body drill_body scheduled kind mode w w' l
        sealed =
      let (owner, w1, e1, r1) = ok->>= (owned_vault now headers vault_id) _ w w' l sealed in
      let (u2, w2, e2, r2) =
        ok->>= (may_seal now owner.0 owner.1 scheduled kind mode) _ w1 w' l r1 in
      (
        owner,
        (ok-owned_vault now headers vault_id w w1 owner e1).0,
        (ok-owned_vault now headers vault_id w w1 owner e1).1,
        (ok-owned_vault now headers vault_id w w1 owner e1).2,
        may_seal-MaySeal now owner.0 owner.1 scheduled kind mode w1 w2 u2 e2,
      )
