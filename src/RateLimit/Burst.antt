-- ===== src/RateLimit/Burst.antt =====
-- crates/beacon-api/src/rate_limit.rs: how many requests of one address pass at one time.
use Prim.Native.Nat.{min}
use paschal.Base.{
  ℕ, zero, suc, ◌^◌, ◌≤◌, ◌≡◌, String, Bool, true, false, some, ltb, pos, leb, is_ok, if◌then◌else◌,
}
use paschal.Base.Float.{Float32}
use paschal.RateLimit.{
  Bucket, RateLimiter, Buckets, Response, passed, too_many_requests, middleware, check,
}

-- The arithmetic of f32 on the integers up to 2 ^ 24, where it is exact, and on a duration of 0.
pub record Exact (f : Float32) : Type 0 where
  pub no_time :
      (k n : ℕ)
      → k ≤ n
      → n ≤ 2 ^ 24
      → f.add
          (f.of_int (pos k))
          (f.mul (f.secs_of_nanos 0) (f.div (f.of_int (pos n)) (f.of_int (pos 60))))
        ≡ f.of_int (pos k)
  pub min_int :
      (k n : ℕ)
      → k ≤ n
      → n ≤ 2 ^ 24
      → f.min (f.of_int (pos k)) (f.of_int (pos n)) ≡ f.of_int (pos k)
  pub one_or_more : (k : ℕ) → k ≤ 2 ^ 24 → f.leb (f.hundredths 100) (f.of_int (pos k)) ≡ leb 1 k
  pub positive : (k : ℕ) → k ≤ 2 ^ 24 → f.ltb (f.hundredths 0) (f.of_int (pos k)) ≡ ltb 0 k
  pub less_one :
      (k : ℕ)
      → suc k ≤ 2 ^ 24
      → f.sub (f.of_int (pos (suc k))) (f.hundredths 100) ≡ f.of_int (pos k)

module _ ⦃f : Float32⦄ where
  is_passed : Response → Bool
  is_passed passed = true
  is_passed (too_many_requests secs) = false

  -- How many of so many requests of one address, at one time and for one path, pass.
  unfoldable pub passing : RateLimiter → ℕ → String → ℕ → ℕ → Buckets → ℕ
  unfolding is_passed
  passing limiter now path ip zero state = 0
  passing limiter now path ip (suc requests) state =
      let (response, state') = middleware limiter now path (some ip) state in
      let rest = passing limiter now path ip requests state' in
      if is_passed response then suc rest else rest

  -- The same, as the buckets alone decide.
  unfoldable accepted : RateLimiter → ℕ → ℕ → ℕ → Buckets → ℕ
  accepted limiter now ip zero state = 0
  accepted limiter now ip (suc requests) state =
      let (result, state') = check limiter now ip state in
      let rest = accepted limiter now ip requests state' in if is_ok result then suc rest else rest

  abbrev holding : ℕ → ℕ → Bucket
  holding now k = record { tokens = f.of_int (pos k); last_refill = now }
