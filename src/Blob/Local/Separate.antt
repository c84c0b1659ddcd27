-- ===== src/Blob/Local/Separate.antt =====
-- crates/blob-store/src/lib.rs: `path_for` gives different blobs different files.
use paschal.Base.{
  ℕ, zero, suc, ◌+◌, ◌≤◌, ◌≡◌, ◌≢◌, refl, sym, ap, ◌∙◌, inl, inr, true, [], ◌∷◌, ◌++◌, arith, leb,
  length, Bool-cases, All,
}
use mathlib.Core.List.{append_cancel_right}
use paschal.Base.Bytes.{Bytes, bytes_of, drop, take}
use paschal.Blob.{parse_key-bare, IsNotColon}
use paschal.Blob.Local.{Files, is_safe, safe, shard, path_for, tmp_for, put, get, delete}
use paschal.Blob.Local.Contract.{read-remove_other, rename-write_other}

-- A character of a UUID in its usual form, or any other that `path_for` keeps.
abbrev pub IsSafe : ℕ → Type 0
IsSafe c = is_safe c ≡ true

safe-id : (s : Bytes) → All IsSafe s → safe s ≡ s
unfolding safe
safe-id [] h = refl
safe-id (c ∷ s) (h, hs) = rw h (ap (◌∷◌ c) (safe-id s hs))

IsSafe-IsNotColon : (s : Bytes) → All IsSafe s → All IsNotColon s
unfolding is_safe
IsSafe-IsNotColon [] h = tt
IsSafe-IsNotColon (c ∷ s) (h, hs) = ((λ eq. ground arith), IsSafe-IsNotColon s hs)

length-take : (n : ℕ) (s : Bytes) → n ≤ length s → length (take n s) ≡ n
length-take zero s h = refl
length-take (suc n) [] h = absurd (omega arith)
length-take (suc n) (c ∷ s) h = ap suc (length-take n s (omega arith))

length-drop : (k n : ℕ) (s : Bytes) → k + n ≤ length s → k ≤ length (drop n s)
length-drop k zero s h = omega arith
length-drop k (suc n) [] h = omega arith
length-drop k (suc n) (c ∷ s) h = length-drop k n s (omega arith)

length-shard : (i : ℕ) (s : Bytes) → length (shard i s) ≡ 2
unfolding shard
length-shard i s = elim (Bool-cases (leb (i + 2) (length s))) [
  | inl e ↦ rw e (length-take 2 (drop i s) (length-drop 2 i s (ground arith)))
  | inr e ↦ rw e refl
]

-- What stands after a directory of two characters and its separator.
after_shard :
    (n c : ℕ) (xs ys : Bytes)
    → length xs ≡ 2
    → drop (suc (suc (suc n))) (xs ++ (c ∷ ys)) ≡ drop n ys
after_shard n c (a ∷ b ∷ []) ys h = refl
after_shard n c [] ys h = absurd (omega arith)
after_shard n c (a ∷ []) ys h = absurd (omega arith)
after_shard n c (a ∷ b ∷ d ∷ xs) ys h = absurd (omega arith)

path_tail : (id : Bytes) → drop 6 (path_for id) ≡ safe id ++ bytes_of ".blob"
unfolding path_for
path_tail id =
    let s = safe id in
    let file = s ++ bytes_of ".blob" in
    after_shard 3 b'/' (shard 0 s) (shard 2 s ++ (b'/' ∷ file)) (length-shard 0 s)
    ∙ after_shard 0 b'/' (shard 2 s) file (length-shard 2 s)

final_byte : Bytes → ℕ
final_byte [] = 0
final_byte (c ∷ []) = c
final_byte (c ∷ d ∷ s) = final_byte (d ∷ s)

final_byte-append : (s t : Bytes) (c : ℕ) → final_byte (s ++ (c ∷ t)) ≡ final_byte (c ∷ t)
unfolding final_byte
final_byte-append [] t c = refl
final_byte-append (a ∷ []) t c = refl
final_byte-append (a ∷ b ∷ s) t c = final_byte-append (b ∷ s) t c

final_byte-path_for : (id : Bytes) → final_byte (path_for id) ≡ b'b'
unfolding path_for final_byte
final_byte-path_for id =
    let s = safe id in
    let file = s ++ bytes_of ".blob" in
    final_byte-append (shard 0 s) (shard 2 s ++ (b'/' ∷ file)) b'/'
    ∙ final_byte-append (b'/' ∷ shard 2 s) file b'/'
    ∙ final_byte-append (b'/' ∷ s) (bytes_of "blob") b'.'

-- No path ends in ".tmp".
path_for-not_tmp : (a b : Bytes) → path_for a ≢ tmp_for (path_for b)
unfolding path_for tmp_for final_byte
path_for-not_tmp a b eq = absurd (
    omega (
      arith,
      final_byte-path_for a,
      ap final_byte eq,
      final_byte-append (path_for b) (bytes_of "tmp") b'.',
    ))

path_for-injective : (a b : Bytes) → All IsSafe a → All IsSafe b → path_for a ≡ path_for b → a ≡ b
path_for-injective a b h k eq =
    sym (safe-id a h)
    ∙ append_cancel_right (safe a) (safe b) (bytes_of ".blob")
        (sym (path_tail a) ∙ ap (drop 6) eq ∙ path_tail b)
    ∙ safe-id b k

-- A put with a fresh id does not change what another id gives.
pub put_keeps_others :
    (region id bytes other : Bytes) (fs : Files)
    → All IsSafe id
    → All IsSafe other
    → other ≢ id
    → get other (put region id bytes fs).1 ≡ get other fs
unfolding put get
put_keeps_others region id bytes other fs h k differ =
    rw (parse_key-bare other (IsSafe-IsNotColon other k)) (
      rw
        (rename-write_other (path_for other) (tmp_for (path_for id)) (path_for id) bytes fs
          (path_for-not_tmp other id) (λ eq. differ (path_for-injective other id k h eq)))
        refl)

-- Nor does a delete.
pub delete_keeps_others :
    (id other : Bytes) (fs : Files)
    → All IsSafe id
    → All IsSafe other
    → other ≢ id
    → get other (delete id fs).1 ≡ get other fs
unfolding delete get
delete_keeps_others id other fs h k differ = rw (parse_key-bare other (IsSafe-IsNotColon other k)) (
    rw (parse_key-bare id (IsSafe-IsNotColon id h)) (
      rw
        (read-remove_other (path_for other) (path_for id) fs
          (λ eq. differ (path_for-injective other id k h eq)))
        refl))
