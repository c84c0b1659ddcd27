-- ===== src/Blob/Local/Contract.antt =====
-- crates/blob-store/src/lib.rs: `LocalFilesystemStore` keeps the contract of `BlobStore`, and its
-- operations do not touch other blobs.
use paschal.Base.{
  ◌≡◌, ◌≢◌, refl, sym, ap, ◌∙◌, inl, inr, false, [], ◌∷◌, none, some, ok, err, arith, Bool-cases,
  All,
}
use paschal.Base.Bytes.{Bytes, bytes_eq, bytes_eq_refl, bytes_eq→≡}
use paschal.Blob.{BlobError, not_found, parse_key, parse_key-bare, IsNotColon, BlobStore}
use paschal.Blob.Local.{Files, read, remove, write, rename, path_for, tmp_for, put, get, delete}

bytes_eq-≢ : (s t : Bytes) → s ≢ t → bytes_eq s t ≡ false
bytes_eq-≢ s t h = elim (Bool-cases (bytes_eq s t)) [
  | inl e ↦ absurd (h (bytes_eq→≡ s t e))
  | inr e ↦ e
]

read-remove : (p : Bytes) (fs : Files) → read p (remove p fs) ≡ none
unfolding read remove
read-remove p [] = refl
read-remove p (f ∷ fs) = ground (arith, read-remove p fs)

remove_idem : (p : Bytes) (fs : Files) → remove p (remove p fs) ≡ remove p fs
unfolding remove
remove_idem p [] = refl
remove_idem p (f ∷ fs) = ground (arith, remove_idem p fs)

read-write : (p content : Bytes) (fs : Files) → read p (write p content fs) ≡ some content
unfolding read write
read-write p content fs = rw (bytes_eq_refl p) refl

rename-write :
    (tmp p content : Bytes) (fs : Files)
    → read p (rename tmp p (write tmp content fs)) ≡ some content
unfolding rename
rename-write tmp p content fs = rw (read-write tmp content fs) (read-write p content _)

-- A file that is not in question stays.
pub read-remove_other : (q p : Bytes) (fs : Files) → q ≢ p → read q (remove p fs) ≡ read q fs
unfolding read remove
read-remove_other q p [] h = refl
read-remove_other q p (f ∷ fs) h = elim (Bool-cases (bytes_eq f.path p)) [
  | inl e ↦ rw e (
      rw (bytes_eq-≢ f.path q (λ eq. h (sym eq ∙ bytes_eq→≡ f.path p e)))
        (read-remove_other q p fs h))
  | inr e ↦ rw e (ground (arith, read-remove_other q p fs h))
]

read-write_other :
    (q p content : Bytes) (fs : Files) → q ≢ p → read q (write p content fs) ≡ read q fs
unfolding read write
read-write_other q p content fs h =
    rw (bytes_eq-≢ p q (λ eq. h (sym eq))) (read-remove_other q p fs h)

pub rename-write_other :
    (q tmp p content : Bytes) (fs : Files)
    → q ≢ tmp
    → q ≢ p
    → read q (rename tmp p (write tmp content fs)) ≡ read q fs
unfolding rename
rename-write_other q tmp p content fs h k = rw (read-write tmp content fs) (
    read-write_other q p content _ k
    ∙ read-remove_other q tmp _ h
    ∙ read-write_other q tmp content fs h)

get-put_fresh :
    (region id bytes : Bytes) (s : Files)
    → All IsNotColon id
    → get id (put region id bytes s).1 ≡ ok bytes
unfolding put get
get-put_fresh region id bytes s h =
    rw (parse_key-bare id h) (rw (rename-write (tmp_for (path_for id)) (path_for id) bytes s) refl)

put-key :
    (region id bytes : Bytes) (s : Files) (key : Bytes)
    → (put region id bytes s).0 ≡ ok key
    → id ≡ key
unfolding put
put-key region id bytes s key h = ground arith

get-put_lem :
    (region id bytes key : Bytes) (s s' : Files)
    → Unit {0}
    → All IsNotColon id
    → put region id bytes s ≡ (ok key, s')
    → get key s' ≡ ok bytes
get-put_lem region id bytes key s s' r h k =
    let fresh = get-put_fresh region id bytes s h in
    let same_key = put-key region id bytes s key (ap (λ r. r.0) k) in
    cc (fresh, same_key, ap (λ r. r.1) k)

get-delete_lem :
    (key : Bytes) (s s' : Files)
    → delete key s ≡ (ok tt, s')
    → (e : BlobError) × (get key s' ≡ err e)
unfolding delete get
get-delete_lem key s s' k =
    rw (sym (ap (λ r. r.1) k))
      (rw (read-remove (path_for (parse_key key).1) s) (not_found key, refl))

delete_idem_lem :
    (key : Bytes) (s s' : Files) → delete key s ≡ (ok tt, s') → delete key s' ≡ (ok tt, s')
unfolding delete
delete_idem_lem key s s' k =
    rw (sym (ap (λ r. r.1) k)) (rw (remove_idem (path_for (parse_key key).1) s) refl)

-- The directory of files fulfils the contract of `BlobStore`, for any region and for ids without
-- a colon.
pub local_store : BlobStore Files (All IsNotColon) (λ _. Unit {0})
local_store = record {
  put = put;
  get = get;
  delete = delete;
  get-put = get-put_lem;
  get-delete = get-delete_lem;
  delete_idem = delete_idem_lem;
}
