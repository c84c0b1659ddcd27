-- ===== src/RateLimit/Addresses.antt =====
-- crates/beacon-api/src/rate_limit.rs: which requests are limited, and that addresses do not share
-- tokens.
use paschal.Base.{
  ℕ, ◌≤◌, ◌≡◌, ◌≢◌, refl, ap, String, true, false, [], ◌∷◌, Option, none, some, Result, ok, err,
  inl, inr, arith, Bool-cases,
}
use paschal.Base.Float.{Float32}
use paschal.RateLimit.{
  Bucket, RateLimiter, Buckets, find_bucket, put_bucket, bucket_or_full, refill, take_token, check,
  enabled, is_excluded, too_many_requests, respond, middleware,
}

module _ ⦃f : Float32⦄ where
  open f use {hundredths, leb}

  find_bucket-put_bucket :
      (ip other : ℕ) (bucket : Bucket) (state : Buckets)
      → other ≢ ip
      → find_bucket other (put_bucket ip bucket state) ≡ find_bucket other state
  unfolding find_bucket put_bucket
  find_bucket-put_bucket ip other bucket [] h = ground arith
  find_bucket-put_bucket ip other bucket ((i, old) ∷ state) h =
      ground (arith, find_bucket-put_bucket ip other bucket state h)

  pub find_bucket-put_bucket_self :
      (ip : ℕ) (bucket : Bucket) (state : Buckets)
      → find_bucket ip (put_bucket ip bucket state) ≡ some bucket
  unfolding find_bucket put_bucket
  find_bucket-put_bucket_self ip bucket [] = ground arith
  find_bucket-put_bucket_self ip bucket ((i, old) ∷ state) =
      ground (arith, find_bucket-put_bucket_self ip bucket state)

  -- What one address asks for does not change the answer to another.
  pub addresses_are_independent :
      (limiter : RateLimiter) (now later ip other : ℕ) (state : Buckets)
      → other ≢ ip
      → (check limiter later other (check limiter now ip state).1).0
        ≡ (check limiter later other state).0
  unfolding check
  addresses_are_independent limiter now later ip other state h =
      rw
        (find_bucket-put_bucket ip other
          (take_token limiter
            (refill limiter now (bucket_or_full limiter now (find_bucket ip state)))).1
          state h)
        refl

  retry_after_pos :
      (limiter : RateLimiter) (bucket : Bucket) (secs : ℕ)
      → (take_token limiter bucket).0 ≡ err secs
      → 1 ≤ secs
  unfolding take_token
  retry_after_pos limiter bucket secs h = elim (Bool-cases (leb (hundredths 100) bucket.tokens)) [
    | inl e ↦ absurd (ground (arith, e, h))
    | inr e ↦ ground (arith, e, h)
  ]

  respond-refused :
      (result : Result ℕ (Unit {0})) (secs : ℕ)
      → respond result ≡ too_many_requests secs
      → result ≡ err secs
  respond-refused (ok u) secs h = absurd (ground arith)
  respond-refused (err n) secs h = ground arith

  -- A request that is refused is refused by an enabled limiter, on no path of the monitoring, with
  -- a known address, and is told to wait for at least a second.
  pub refused_request :
      (limiter : RateLimiter) (now : ℕ) (path : String) (address : Option ℕ)
      (state state' : Buckets) (secs : ℕ)
      → middleware limiter now path address state ≡ (too_many_requests secs, state')
      → (enabled limiter ≡ true) × (is_excluded path ≡ false) × (address ≢ none) × (1 ≤ secs)
  unfolding middleware check
  refused_request limiter now path none state state' secs h =
      absurd (ground (arith, ap (λ r. r.0) h))
  refused_request limiter now path (some ip) state state' secs h =
      let answer = ap (λ r. r.0) h in
      let bucket = refill limiter now (bucket_or_full limiter now (find_bucket ip state)) in
      elim (Bool-cases (enabled limiter)) [
        | inl e ↦ elim (Bool-cases (is_excluded path)) [
          | inl x ↦ absurd (ground (arith, e, x, answer))
          | inr x ↦ (
            e,
            x,
            (λ eq. ground arith),
            retry_after_pos limiter bucket secs
                (respond-refused (take_token limiter bucket).0 secs (ground (arith, e, x, answer))),
          )
        ]
        | inr e ↦ absurd (ground (arith, e, answer))
      ]
