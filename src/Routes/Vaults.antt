-- ===== src/Routes/Vaults.antt =====
-- crates/beacon-api/src/routes.rs: the handlers of vaults and of their contacts.
pub mod Owner
pub mod Settings
use paschal.Base.{
  ℕ, ◌%◌, ◌^◌, String, Bool, true, false, not, ◌&&◌, ◌||◌, List, [], ◌∷◌, Option, none, some,
  Result, ok, err, ℤ, pos, ltbℤ, ltb, ◌==◌, str_eq, if◌then◌else◌, coalesce,
}
use paschal.Base.Float.{Float32}
use paschal.Base.Text.{contains, is_empty, trim}
use paschal.Domain.Errors.{DomainError}
use paschal.Domain.VaultState
use paschal.Domain.VaultState.{released}
use paschal.Domain.Tier.{Tier, honest_operator, zero_knowledge}
use paschal.Domain.StorageRegion.{StorageRegion, from_aws_str, as_aws_str, default}
use paschal.Domain.SubscriptionState.{allows_authoring}
use paschal.Domain.SignalSource.{
  SignalSource, heartbeat, buddy_attestation, apple_icloud_shortcut, default_weight,
}
use paschal.Domain.Plans.{PlanFeatures, self_hosted, plan_features}
use paschal.Db.Tables
use paschal.Db.Tables.{Store, Vault, VaultContact, SignalSubscription, Subscription}
use paschal.Db.Vaults as VaultQueries
use paschal.Db.Vaults.{fetch_vault}
use paschal.Db.Contacts as ContactQueries
use paschal.Db.Contacts.{vault_count}
use paschal.Db.Presence.{upsert_signal_subscription}
use paschal.Db.Subscriptions.{fetch_subscription}
use paschal.Db.Releases.{append_transparency_entry}
use paschal.App.World.{
  World, Platform, Metrics, ApiError, bad_request, not_found, conflict, forbidden, inc,
}
use paschal.App.Monad.{
  Api, ◌>>=◌, ◌>>◌, continue, pure, fail, ensure, ask, ask_result, exec, call, call_result,
  ignore_errors, count, for_each, draw,
}
use paschal.Routes.Auth.{current_principal}

-- `.map_err(|_| e)?`
abbrev pub require_ok : {E A : Type 0} → ApiError → Result E A → Api A
require_ok e (ok a) = pure a
require_ok e (err _) = fail e

-- `as u32` of a count.
abbrev pub as_u32 : ℕ → ℕ
as_u32 n = n % 2 ^ 32

abbrev pub unwrap_or {ℓ} : {A : Type ℓ} → Option A → A → A
unwrap_or none d = d
unwrap_or (some a) d = a

-- The tier that is asked for: anything but the two spellings is the operator's.
unfoldable pub requested_tier : Option String → Tier
requested_tier none = honest_operator
requested_tier (some s) =
    if str_eq s "ZERO_KNOWLEDGE" || str_eq s "zero_knowledge"
    then zero_knowledge
    else honest_operator

abbrev pub same_region : StorageRegion → StorageRegion → Bool
same_region a b = str_eq (as_aws_str a) (as_aws_str b)

abbrev pub entitled : PlanFeatures → StorageRegion → Result ApiError StorageRegion
entitled plan region =
    if not (same_region region default) && not plan.multi_region then err forbidden else ok region

unfoldable pub resolve_storage_region : Option String → PlanFeatures → Result ApiError StorageRegion
resolve_storage_region none plan = ok default
resolve_storage_region (some s) plan = elim (from_aws_str s) [
  | err e ↦ err bad_request
  | ok region ↦ entitled plan region
]

-- `?` on a result of the handler's own error.
abbrev pub lift : {A : Type 0} → Result ApiError A → Api A
lift (ok a) = pure a
lift (err e) = fail e

abbrev pub default_sources : List SignalSource
default_sources = heartbeat ∷ buddy_attestation ∷ apple_icloud_shortcut ∷ []

module _ ⦃p : Platform⦄ where
  -- The first steps of every handler of one vault: the session's principal, the vault, and that
  -- it is the principal's.
  unfoldable pub owned_vault : ℕ → Option ℕ → ℕ → Api (ℕ × Vault)
  owned_vault now headers vault_id = do
    pid ← current_principal now headers
    vault ← ask_result (fetch_vault vault_id)
    ensure (vault.principal_id == pid) not_found
    pure (pid, vault)

  unfoldable pub list_vaults : ℕ → Option ℕ → Api (List Vault)
  list_vaults now headers = do
    pid ← current_principal now headers
    ask (VaultQueries.list_vaults pid)

  unfoldable pub get_vault : ℕ → Option ℕ → ℕ → Api Vault
  unfolding owned_vault
  get_vault now headers vault_id = do (pid, vault) ← owned_vault now headers vault_id; pure vault

  unfoldable pub update_vault : ℕ → Option ℕ → ℕ → String → Option ℤ → Api Vault
  unfolding owned_vault
  update_vault now headers vault_id body_name body_seconds = do
    (pid, vault) ← owned_vault now headers vault_id
    ensure (not (VaultState.eq vault.state released)) conflict
    ensure (not (is_empty (trim body_name))) bad_request
    ensure (not (ltbℤ (unwrap_or body_seconds vault.cooling_off_seconds) (pos 3600))) bad_request
    call_result (
        VaultQueries.update_vault vault_id (trim body_name)
          (unwrap_or body_seconds vault.cooling_off_seconds))

  unfoldable pub create_vault_contact :
      ℕ → Option ℕ → ℕ → String → String → Option ℕ → Option String → Api (Option VaultContact)
  unfolding owned_vault
  create_vault_contact now headers vault_id display_name email birthday release_note = do
    (pid, vault) ← owned_vault now headers vault_id
    ensure (contains b'@' email) bad_request
    id ← draw
    call (
        ContactQueries.create_vault_contact id now vault.id display_name email birthday
          release_note)

  unfoldable pub update_vault_contact :
      ℕ → Option ℕ → ℕ → ℕ → String → String → Option ℕ → Option String → Api VaultContact
  unfolding owned_vault
  update_vault_contact now headers vault_id contact_id display_name email birthday release_note = do
    (pid, vault) ← owned_vault now headers vault_id
    call_result (
        ContactQueries.update_vault_contact contact_id vault.id display_name email birthday
          release_note)

  unfoldable pub delete_vault_contact : ℕ → Option ℕ → ℕ → ℕ → Api (Unit {0})
  unfolding owned_vault
  delete_vault_contact now headers vault_id contact_id = do
    (pid, vault) ← owned_vault now headers vault_id
    exec (ContactQueries.delete_vault_contact contact_id vault.id)

  module _ ⦃f : Float32⦄ where
    -- One of the default subscriptions of a new vault.
    unfoldable pub subscribe_default : ℕ → SignalSource → Api (Unit {0})
    subscribe_default vault_id source = do
      id ← draw
      exec λ s.
          (upsert_signal_subscription id vault_id source
            (f.to_bits (f.hundredths (default_weight source))) true s).1

    unfoldable pub create_vault :
        ℕ → ℤ → Option ℕ → String → Option String → Option ℤ → Option String → Api Vault
    unfolding subscribe_default
    create_vault now default_seconds headers name tier cooling_off_seconds storage_region = do
      pid ← current_principal now headers
      sub ← ask_result (fetch_subscription pid)
      ensure (allows_authoring sub.state) forbidden
      current_vaults ← ask (vault_count pid)
      ensure (ltb (as_u32 current_vaults) (plan_features self_hosted).max_vaults) forbidden
      region ← lift (resolve_storage_region storage_region (plan_features self_hosted))
      id ← draw
      vault ← call (
          VaultQueries.create_vault id now pid name (requested_tier tier)
            (unwrap_or cooling_off_seconds default_seconds) region)
      for_each default_sources (subscribe_default vault.id)
      exec (append_transparency_entry "VAULT_CREATED" (some pid) (some vault.id))
      count (λ m. record m { vaults_created_total = inc m.vaults_created_total })
      pure vault
