-- ===== src/Blob/Router/Contract.antt =====
-- crates/blob-store/src/s3.rs: what a put through the router returns is found through the router,
-- in the bucket of its region.
use paschal.Base.{
  String, ◌≡◌, refl, ap, subst, ◌∙◌, ◌∷◌, ◌++◌, Option, none, Result, ok, err, inl, inr, arith, All,
  ◌⊎◌,
}
use paschal.Base.Bytes.{Bytes}
use paschal.Blob.{BlobError, backend, parse_key-region, IsNotColon}
use paschal.Blob.Router.{
  Service, S3Store, RegionRouter, object_key, find_store, store_for, put_id, get_id, put_routed,
  get_routed, delete_routed, with_region, with_store, backend_result, get_result,
}

Result-cases {ℓ κ} :
    {E : Type ℓ} {A : Type κ} (r : Result E A) → ((a : A) × (r ≡ ok a)) ⊎ ((e : E) × (r ≡ err e))
Result-cases (ok a) = inl (a, refl)
Result-cases (err e) = inr (e, refl)

module _ {ℓ} {S : Type ℓ} where
  backend_result-ok :
      (b key : Bytes) (r : Result String (Unit {0}) × S) (s' : S)
      → backend_result b r ≡ (ok key, s')
      → (key ≡ b) × (r ≡ (ok tt, s'))
  backend_result-ok b key (ok tt, s) s' h = ground (arith, ap (λ r. r.0) h, ap (λ r. r.1) h)
  backend_result-ok b key (err e, s) s' h = absurd (ground (arith, ap (λ r. r.0) h))

module _ ⦃service : Service⦄ where
  open service use {Objects}

  -- Amazon S3 is consistent: an object that was put is read.
  abbrev pub ReadsWhatWasPut : Type 0
  ReadsWhatWasPut =
      (bucket key : Bytes) (kms : Option Bytes) (bytes : Bytes) (s s' : Objects)
      → service.put_object bucket key kms bytes s ≡ (ok tt, s')
      → service.get_object bucket key s' ≡ ok bytes

  put_id-reads :
      ReadsWhatWasPut
      → (store : S3Store) (id bytes key : Bytes) (s s' : Objects)
      → put_id store id bytes s ≡ (ok key, s')
      → (key ≡ id) × (get_id store id s' ≡ ok bytes)
  unfolding put_id get_id
  put_id-reads law store id bytes key s s' h =
      let (same, done) =
        backend_result-ok id key
          (service.put_object store.bucket (object_key store id) store.kms_key_id bytes s) s' h in
      (
        same,
        ap get_result (law store.bucket (object_key store id) store.kms_key_id bytes s s' done),
      )

  with_region-ok :
      (region key : Bytes) (r : Result BlobError Bytes × Objects) (s' : Objects)
      → with_region region r ≡ (ok key, s')
      → (id : Bytes) × (key ≡ region ++ (b':' ∷ id)) × (r ≡ (ok id, s'))
  with_region-ok region key (ok id, s) s' h =
      (id, ground (arith, ap (λ r. r.0) h), ground (arith, ap (λ r. r.1) h))
  with_region-ok region key (err e, s) s' h = absurd (ground (arith, ap (λ r. r.0) h))

  -- Once the store of the region is known.
  round_trip_at :
      ReadsWhatWasPut
      → (router : RegionRouter) (store : S3Store) (region id bytes key : Bytes) (s s' : Objects)
      → All IsNotColon region
      → store_for router region ≡ ok store
      → with_region region (put_id store id bytes s) ≡ (ok key, s')
      → (key ≡ region ++ (b':' ∷ id)) × (get_routed router key s' ≡ ok bytes)
  unfolding get_routed
  round_trip_at law router store region id bytes key s s' h e k =
      let (id', key_is, done) = with_region-ok region key (put_id store id bytes s) s' k in
      let (same, reads) = put_id-reads law store id bytes id' s s' done in
      let key_is_id = key_is ∙ ap (λ i. region ++ (b':' ∷ i)) same in
      (key_is_id, rw key_is_id (rw (parse_key-region region id h, get_routed) (rw e reads)))

  -- A put through the router that succeeds returns a key, under which the router finds the bytes,
  -- if no region has a colon in its name and the service reads what was put.
  pub routed_round_trip :
      ReadsWhatWasPut
      → (router : RegionRouter) (region id bytes key : Bytes) (s s' : Objects)
      → All IsNotColon region
      → put_routed router region id bytes s ≡ (ok key, s')
      → (key ≡ region ++ (b':' ∷ id)) × (get_routed router key s' ≡ ok bytes)
  unfolding put_routed
  routed_round_trip law router region id bytes key s s' h k =
      elim (Result-cases (store_for router region)) [
        | inl (store, e) ↦ round_trip_at law router store region id bytes key s s' h e (
            subst
              (λ q. with_store q s (λ t. with_region region (put_id t id bytes s)) ≡ (ok key, s')) e
              k)
        | inr (error, e) ↦ absurd (
            ground (
              arith,
              ap (λ r. r.0)
                  (subst
                    (λ q.
                      with_store q s (λ t. with_region region (put_id t id bytes s)) ≡ (ok key, s'))
                    e k),
            ))
      ]

  -- A region that is not configured is refused, for new blobs and for keys that name it, and
  -- nothing is written; there is no fallback to the default region.
  pub unconfigured_region_refused :
      (router : RegionRouter) (region id bytes : Bytes) (s : Objects)
      → All IsNotColon region
      → find_store region router.stores ≡ none
      → let refusal = backend "no store configured for region" in
        (put_routed router region id bytes s ≡ (err refusal, s))
        × (get_routed router (region ++ (b':' ∷ id)) s ≡ err refusal)
        × (delete_routed router (region ++ (b':' ∷ id)) s ≡ (err refusal, s))
  unfolding put_routed get_routed delete_routed store_for
  unconfigured_region_refused router region id bytes s h unknown =
      rw (parse_key-region region id h) (rw unknown (refl, refl, refl))
