-- ===== src/Blob.antt =====
-- crates/blob-store/src/lib.rs: keys and errors of the stores of sealed attachments, and the
-- contract that the trait `BlobStore` states. Keys and file names are byte strings.
pub mod Local
pub mod Router
use paschal.Base.{
  ℕ, String, ◌≡◌, refl, ◌≢◌, Bool, true, false, List, [], ◌∷◌, ◌++◌, Option, none, some, Result, ok,
  err, arith, ◌==◌, if◌then◌else◌, All,
}
use paschal.Base.Bytes.{Bytes, bytes_of}

pub data BlobError : Type 0 where
  io : String → BlobError
  not_found : Bytes → BlobError
  backend : String → BlobError

-- `key.split_once(':')`, with the part before a colon in front of what the rest splits into.
abbrev pub before : ℕ → Option Bytes × Bytes → Bytes → Option Bytes × Bytes
before c (none, _) key = (none, key)
before c (some region, id) key = (some (c ∷ region), id)

unfoldable pub parse_key : Bytes → Option Bytes × Bytes
parse_key [] = (none, [])
parse_key (c ∷ s) =
    let rest = parse_key s in if c == b':' then (some [], s) else before c rest (c ∷ s)

abbrev pub IsNotColon : ℕ → Type 0
IsNotColon c = c ≢ b':'

-- A key without a colon has no region.
pub parse_key-bare : (id : Bytes) → All IsNotColon id → parse_key id ≡ (none, id)
unfolding parse_key
parse_key-bare [] h = refl
parse_key-bare (c ∷ s) (h, hs) = rw (parse_key-bare s hs) (ground arith)

-- A key that was written with a region is split into this region and the id, whatever the id.
pub parse_key-region :
    (region id : Bytes)
    → All IsNotColon region
    → parse_key (region ++ (b':' ∷ id)) ≡ (some region, id)
unfolding parse_key
parse_key-region [] id h = refl
parse_key-region (c ∷ s) id (h, hs) = rw (parse_key-region s id hs) (ground arith)

-- What the trait's comments promise, of any store: `State` is what it keeps, an id is what
-- `Uuid::new_v4` returns. A put that succeeds returns a key by which the bytes are found; after a
-- delete that succeeds they are not found, and a second delete succeeds and changes nothing.
pub record BlobStore (State : Type 0) (IsId : Bytes → Type 0) (IsRegion : Bytes → Type 0)
    : Type 0 where
  pub put : Bytes → Bytes → Bytes → State → Result BlobError Bytes × State
  pub get : Bytes → State → Result BlobError Bytes
  pub delete : Bytes → State → Result BlobError (Unit {0}) × State
  pub get-put :
      (region id bytes key : Bytes) (s s' : State)
      → IsRegion region
      → IsId id
      → put region id bytes s ≡ (ok key, s')
      → get key s' ≡ ok bytes
  pub get-delete :
      (key : Bytes) (s s' : State)
      → delete key s ≡ (ok tt, s')
      → (e : BlobError) × (get key s' ≡ err e)
  pub delete_idem :
      (key : Bytes) (s s' : State) → delete key s ≡ (ok tt, s') → delete key s' ≡ (ok tt, s')
