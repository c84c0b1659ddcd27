-- ===== src/Domain/Plans.antt =====
-- crates/beacon-core/src/lib.rs: the single plan, its limits and the catalogue; and the quota of a
-- subscription.
pub mod Quota
use Prim.Native.Nat.{max}
use paschal.Base.{
  ℕ, ◌+◌, ◌-◌, ◌*◌, ◌%◌, ◌^◌, String, Bool, true, List, [], ◌∷◌, Result, ok, ℤ, max_zero,
}
use paschal.Domain.Errors.{DomainError}
use paschal.Domain.SignalSource.{
  SignalSource, heartbeat, cdr, apple_icloud_shortcut, microsoft_account, google_login, calendar,
  email, buddy_attestation, guardian_attestation, death_registry, sentinel_offline,
}

pub data PlanId : Type 0 where
  self_hosted : PlanId

unfoldable pub as_db_str : PlanId → String
as_db_str self_hosted = "self_hosted"

-- Any text is the single plan.
unfoldable pub from_db_str : String → Result DomainError PlanId
from_db_str s = ok self_hosted

pub record PlanFeatures : Type 0 where
  pub plan_id : PlanId
  pub storage_bytes : ℕ
  pub retention_days : ℕ
  pub scheduled_horizon_days : ℕ
  pub max_vaults : ℕ
  pub max_letters_per_vault : ℕ
  pub max_trustees : ℕ
  pub max_co_stewards : ℕ
  pub allowed_signals : List SignalSource
  pub multi_region : Bool
  pub notes : List String

abbrev kb : ℕ
kb = 1024

abbrev mb : ℕ
mb = 1024 * kb

abbrev gb : ℕ
gb = 1024 * mb

abbrev tb : ℕ
tb = 1024 * gb

abbrev u32_max : ℕ
u32_max = 2 ^ 32 - 1

abbrev pub all_signals : List SignalSource
all_signals =
    heartbeat ∷ cdr ∷ apple_icloud_shortcut ∷ microsoft_account ∷ google_login ∷ calendar ∷ email
    ∷ buddy_attestation ∷ guardian_attestation ∷ death_registry ∷ sentinel_offline ∷ []

unfoldable pub plan_features : PlanId → PlanFeatures
plan_features self_hosted = record {
  plan_id = self_hosted;
  storage_bytes = 1024 * tb;
  retention_days = 36500;
  scheduled_horizon_days = 36500;
  max_vaults = u32_max;
  max_letters_per_vault = u32_max;
  max_trustees = u32_max;
  max_co_stewards = u32_max;
  allowed_signals = all_signals;
  multi_region = true;
  notes = "Self-hosted edition — all features, no quotas." ∷ [];
}

unfoldable pub public_catalog : List PlanFeatures
unfolding plan_features
public_catalog = plan_features self_hosted ∷ []

-- The sum is a u64.
unfoldable pub effective_storage_bytes : PlanId → ℤ → ℕ
unfolding plan_features
effective_storage_bytes plan extra_storage_bytes =
    ((plan_features plan).storage_bytes + max_zero extra_storage_bytes) % 2 ^ 64
