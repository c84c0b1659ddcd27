-- ===== src/Domain/Plans/Quota.antt =====
-- crates/beacon-core/src/lib.rs: the sum of the quota does not overflow.
use paschal.Base.{◌+◌, ◌^◌, ◌<◌, ◌≤◌, ◌≡◌, ℤ, pos, negsuc, max_zero, arith}
use paschal.Domain.Plans.{PlanId, self_hosted, plan_features, effective_storage_bytes}

-- The values of an i64.
abbrev pub IsI64 : ℤ → Type 0
IsI64 (pos n) = n < 2 ^ 63
IsI64 (negsuc n) = n < 2 ^ 63

-- Whatever i64 the add-on column holds, the sum of the quota does not wrap, is at least the plan's
-- storage, and is the plan's storage if the add-on is negative.
quota_never_wraps :
    (plan : PlanId) (extra : ℤ)
    → IsI64 extra
    → let base = (plan_features plan).storage_bytes in
      (effective_storage_bytes plan extra ≡ base + max_zero extra)
      × (base ≤ effective_storage_bytes plan extra)
      × (effective_storage_bytes plan extra < 2 ^ 64)
unfolding effective_storage_bytes plan_features
quota_never_wraps self_hosted (pos n) h = (omega arith, omega arith, omega arith)
quota_never_wraps self_hosted (negsuc n) h = (omega arith, omega arith, omega arith)
