-- ===== src/Blob/Local.antt =====
-- crates/blob-store/src/lib.rs: `LocalFilesystemStore`. The directory is the list of its files,
-- each with the path below the root. Errors of the file system are not modelled.
pub mod Contract
pub mod Separate
use paschal.Base.{
  ℕ, ◌+◌, ◌≡◌, refl, inl, inr, Bool, true, false, ◌&&◌, ◌||◌, List, [], ◌∷◌, ◌++◌, Option, none,
  some, Result, ok, err, ok_or, arith, leb, ltb, length, ◌==◌, if◌then◌else◌, ==→≡,
}
use paschal.Base.Bytes.{Bytes, bytes_of, bytes_eq, drop, take}
use paschal.Blob.{BlobError, not_found, parse_key}

pub record File : Type 0 where
  pub path : Bytes
  pub content : Bytes

abbrev pub Files : Type 0
Files = List File

unfoldable pub read : Bytes → Files → Option Bytes
read path [] = none
read path (f ∷ fs) = if bytes_eq f.path path then some f.content else read path fs

unfoldable pub remove : Bytes → Files → Files
remove path [] = []
remove path (f ∷ fs) = let rest = remove path fs in if bytes_eq f.path path then rest else f ∷ rest

-- `File::create` and `write_all`: what the path held is replaced.
unfoldable pub write : Bytes → Bytes → Files → Files
write path content fs = record { path = path; content = content } ∷ remove path fs

abbrev pub moved : Option Bytes → Bytes → Files → Files
moved none to fs = fs
moved (some content) to fs = write to content fs

-- `fs::rename`.
unfoldable pub rename : Bytes → Bytes → Files → Files
rename from to fs = moved (read from fs) to (remove from fs)

-- The characters that `path_for` keeps.
unfoldable pub is_safe : ℕ → Bool
is_safe c =
    (leb b'0' c && leb c b'9')
    || (leb b'A' c && leb c b'Z')
    || (leb b'a' c && leb c b'z')
    || (c == b'-')

unfoldable pub safe : Bytes → Bytes
unfolding is_safe
safe [] = []
safe (c ∷ s) = let rest = safe s in if is_safe c then c ∷ rest else rest

-- `safe.get(i..i + 2).unwrap_or("xx")`.
unfoldable pub shard : ℕ → Bytes → Bytes
shard i s = if leb (i + 2) (length s) then take 2 (drop i s) else bytes_of "xx"

unfoldable pub path_for : Bytes → Bytes
unfolding shard safe
path_for key =
    let s = safe key in shard 0 s ++ (b'/' ∷ (shard 2 s ++ (b'/' ∷ (s ++ bytes_of ".blob"))))

-- `tmp.set_extension("blob.tmp")` on a path whose file name has a text in front of ".blob", as it
-- has for the ids of `put`.
unfoldable pub tmp_for : Bytes → Bytes
tmp_for path = path ++ bytes_of ".tmp"

-- The id is the fresh one that `Uuid::new_v4` returns.
unfoldable pub put : Bytes → Bytes → Bytes → Files → Result BlobError Bytes × Files
unfolding path_for tmp_for
put region id bytes fs =
    let path = path_for id in
    let tmp = tmp_for path in (ok id, rename tmp path (write tmp bytes fs))

unfoldable pub get : Bytes → Files → Result BlobError Bytes
unfolding path_for
get key fs = ok_or (not_found key) (read (path_for (parse_key key).1) fs)

unfoldable pub delete : Bytes → Files → Result BlobError (Unit {0}) × Files
unfolding path_for
delete key fs = (ok tt, remove (path_for (parse_key key).1) fs)
