-- ===== src/Blob/Router.antt =====
-- crates/blob-store/src/s3.rs: `S3Store` and `RegionRouter`. The service itself is a parameter:
-- objects in buckets, with the answers that the client library gives.
pub mod Contract
use paschal.Base.{
  ℕ, String, ◌≡◌, Bool, true, false, List, [], ◌∷◌, ◌++◌, Option, none, some, Result, ok, err,
  ok_or, and_then, ◌==◌, if◌then◌else◌,
}
use paschal.Base.Bytes.{Bytes, bytes_eq}
use paschal.Blob.{BlobError, not_found, backend, parse_key}

pub data GetError : Type 0 where
  no_such_key : Bytes → GetError
  other_error : String → GetError

-- PutObject with the bucket, the key and the id of the encryption key, GetObject, DeleteObject.
pub record Service : Type 1 where
  pub Objects : Type 0
  pub put_object :
      Bytes → Bytes → Option Bytes → Bytes → Objects → Result String (Unit {0}) × Objects
  pub get_object : Bytes → Bytes → Objects → Result GetError Bytes
  pub delete_object : Bytes → Bytes → Objects → Result String (Unit {0}) × Objects

pub record S3Store : Type 0 where
  pub bucket : Bytes
  pub prefix : Bytes
  pub kms_key_id : Option Bytes

pub record RegionRouter : Type 0 where
  pub stores : List (Bytes × S3Store)
  pub default_region : Bytes

-- `From<SdkError<GetObjectError>>`.
abbrev pub blob_error : GetError → BlobError
blob_error (no_such_key message) = not_found message
blob_error (other_error message) = backend message

-- `trim_end_matches('/')`: a slash is kept where something stays behind it.
unfoldable pub trim_end : Bytes → Bytes
trim_end [] = []
trim_end (c ∷ s) =
    let rest = trim_end s in
    if c == b'/' then elim rest [ [] ↦ [] | d ∷ t ↦ c ∷ d ∷ t ] else c ∷ rest

unfoldable pub object_key : S3Store → Bytes → Bytes
unfolding trim_end
object_key store key = elim store.prefix [ [] ↦ key | c ∷ s ↦ trim_end (c ∷ s) ++ (b'/' ∷ key) ]

abbrev pub get_result : Result GetError Bytes → Result BlobError Bytes
get_result (ok bytes) = ok bytes
get_result (err e) = err (blob_error e)

abbrev pub backend_result {ℓ κ μ} :
    {A : Type ℓ} {B : Type κ} {S : Type μ} → B → Result String A × S → Result BlobError B × S
backend_result b (ok a, s) = (ok b, s)
backend_result b (err message, s) = (err (backend message), s)

-- `self.stores.get(region)`.
unfoldable pub find_store : Bytes → List (Bytes × S3Store) → Option S3Store
find_store region [] = none
find_store region ((name, store) ∷ stores) =
    if bytes_eq name region then some store else find_store region stores

unfoldable pub store_for : RegionRouter → Bytes → Result BlobError S3Store
unfolding find_store
store_for router region =
    ok_or (backend "no store configured for region") (find_store region router.stores)

-- The pairs collected into a HashMap: of two with the same region the later one stays.
abbrev pub collect : List (Bytes × S3Store) → List (Bytes × S3Store) → List (Bytes × S3Store)
collect [] seen = seen
collect (pair ∷ pairs) seen = collect pairs (pair ∷ seen)

-- `RegionRouter::new`.
unfoldable pub new_router : List (Bytes × S3Store) → Bytes → Result BlobError RegionRouter
unfolding find_store
new_router stores default_region =
    let known = collect stores [] in
    elim (find_store default_region known) [
      | none ↦ err (backend "default region has no configured store")
      | some store ↦ ok (record { stores = known; default_region = default_region })
    ]

-- `region.unwrap_or(&self.default_region)`.
abbrev pub region_or : Bytes → Option Bytes → Bytes
region_or default none = default
region_or default (some region) = region

module _ ⦃service : Service⦄ where
  open service use {Objects}

  unfoldable pub put_id : S3Store → Bytes → Bytes → Objects → Result BlobError Bytes × Objects
  unfolding object_key
  put_id store id bytes s =
      backend_result id
        (service.put_object store.bucket (object_key store id) store.kms_key_id bytes s)

  unfoldable pub get_id : S3Store → Bytes → Objects → Result BlobError Bytes
  unfolding object_key
  get_id store id s = get_result (service.get_object store.bucket (object_key store id) s)

  unfoldable pub delete_id : S3Store → Bytes → Objects → Result BlobError (Unit {0}) × Objects
  unfolding object_key
  delete_id store id s =
      backend_result tt (service.delete_object store.bucket (object_key store id) s)

  abbrev pub with_region :
      Bytes → Result BlobError Bytes × Objects → Result BlobError Bytes × Objects
  with_region region (ok id, s) = (ok (region ++ (b':' ∷ id)), s)
  with_region region (err e, s) = (err e, s)

  -- `store_for(region)?` in front of an operation of the store.
  abbrev pub with_store {κ} :
      {B : Type κ}
      → Result BlobError S3Store
      → Objects
      → (S3Store → Result BlobError B × Objects)
      → Result BlobError B × Objects
  with_store (ok store) s run = run store
  with_store (err e) s run = (err e, s)

  unfoldable pub put_routed :
      RegionRouter → Bytes → Bytes → Bytes → Objects → Result BlobError Bytes × Objects
  unfolding put_id store_for
  put_routed router region id bytes s =
      with_store (store_for router region) s λ store. with_region region (put_id store id bytes s)

  unfoldable pub get_routed : RegionRouter → Bytes → Objects → Result BlobError Bytes
  unfolding get_id store_for
  get_routed router key s =
      let (region, id) = parse_key key in
      and_then (store_for router (region_or router.default_region region))
        λ store. get_id store id s

  unfoldable pub delete_routed :
      RegionRouter → Bytes → Objects → Result BlobError (Unit {0}) × Objects
  unfolding delete_id store_for
  delete_routed router key s =
      let (region, id) = parse_key key in
      with_store (store_for router (region_or router.default_region region)) s
        λ store. delete_id store id s
