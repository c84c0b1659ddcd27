-- ===== src/RateLimit.antt =====
-- crates/beacon-api/src/rate_limit.rs: the token bucket of each address and the middleware. Times
-- are in nanoseconds.
pub mod Burst
pub mod Addresses
use Prim.Native.Nat.{max}
use paschal.Base.{
  ℕ, ◌-◌, String, Bool, true, false, ◌||◌, List, [], ◌∷◌, Option, none, some, Result, ok, err, ℤ,
  pos, str_eq, ◌==◌, if◌then◌else◌,
}
use paschal.Base.Float.{Float32}

module _ ⦃f : Float32⦄ where
  open f use {F, hundredths, of_int, add, sub, mul, div, min, leb, ltb, secs_of_nanos, ceil_u32}

  pub record Bucket : Type 0 where
    pub tokens : F
    pub last_refill : ℕ

  pub record RateLimiter : Type 0 where
    pub capacity : F
    pub refill_per_sec : F

  -- The map from addresses to buckets, behind the lock.
  abbrev pub Buckets : Type 0
  Buckets = List (ℕ × Bucket)

  unfoldable pub new : ℕ → RateLimiter
  new per_minute =
      let capacity = of_int (pos per_minute) in
      record { capacity = capacity; refill_per_sec = div capacity (of_int (pos 60)) }

  unfoldable pub enabled : RateLimiter → Bool
  enabled limiter = ltb (hundredths 0) limiter.capacity

  unfoldable pub find_bucket : ℕ → Buckets → Option Bucket
  find_bucket ip [] = none
  find_bucket ip ((other, bucket) ∷ state) =
      if other == ip then some bucket else find_bucket ip state

  unfoldable pub put_bucket : ℕ → Bucket → Buckets → Buckets
  put_bucket ip bucket [] = (ip, bucket) ∷ []
  put_bucket ip bucket ((other, old) ∷ state) =
      let rest = put_bucket ip bucket state in
      if other == ip then (ip, bucket) ∷ state else (other, old) ∷ rest

  -- `entry(ip).or_insert(…)`.
  unfoldable pub bucket_or_full : RateLimiter → ℕ → Option Bucket → Bucket
  bucket_or_full limiter now none = record { tokens = limiter.capacity; last_refill = now }
  bucket_or_full limiter now (some bucket) = bucket

  unfoldable pub refill : RateLimiter → ℕ → Bucket → Bucket
  refill limiter now bucket =
      let elapsed = secs_of_nanos (now - bucket.last_refill) in
      record {
        tokens = min (add bucket.tokens (mul elapsed limiter.refill_per_sec)) limiter.capacity;
        last_refill = now;
      }

  -- One token is taken, or the seconds to the next token are the error.
  unfoldable pub take_token : RateLimiter → Bucket → Result ℕ (Unit {0}) × Bucket
  take_token limiter bucket =
      if leb (hundredths 100) bucket.tokens
      then (ok tt, record bucket { tokens = sub bucket.tokens (hundredths 100) })
      else (
        err (max (ceil_u32 (div (sub (hundredths 100) bucket.tokens) limiter.refill_per_sec)) 1),
        bucket,
      )

  unfoldable pub check : RateLimiter → ℕ → ℕ → Buckets → Result ℕ (Unit {0}) × Buckets
  unfolding find_bucket bucket_or_full refill take_token put_bucket
  check limiter now ip state =
      let bucket = bucket_or_full limiter now (find_bucket ip state) in
      let (result, bucket') = take_token limiter (refill limiter now bucket) in
      (result, put_bucket ip bucket' state)

  unfoldable pub is_excluded : String → Bool
  is_excluded path =
      str_eq path "/health"
      || str_eq path "/livez"
      || str_eq path "/readyz"
      || str_eq path "/metrics"

  -- The answer: the next handler's, or 429 with the seconds of `Retry-After`.
  pub data Response : Type 0 where
    passed : Response
    too_many_requests : ℕ → Response

  abbrev pub respond : Result ℕ (Unit {0}) → Response
  respond (ok _) = passed
  respond (err secs) = too_many_requests secs

  unfoldable pub middleware : RateLimiter → ℕ → String → Option ℕ → Buckets → Response × Buckets
  unfolding check enabled is_excluded
  middleware limiter now path none state = (passed, state)
  middleware limiter now path (some ip) state =
      let (result, state') = check limiter now ip state in
      if enabled limiter
      then if is_excluded path then (passed, state) else (respond result, state')
      else (passed, state)
