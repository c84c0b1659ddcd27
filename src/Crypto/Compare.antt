-- ===== src/Crypto/Compare.antt =====
-- crates/beacon-api/src/routes.rs: `hmac_sha256` and `constant_time_eq`, by which a request that
-- is signed is recognised.
use Prim.Native.Nat.{bit_or, bit_xor, bit_or-bitwise, bit_xor-bitwise, digits, differ, max}
use paschal.Base.{
  ℕ, zero, suc, ◌/◌, ◌%◌, ◌≤◌, ◌≡◌, refl, sym, subst, ◌∙◌, ==_refl, Bool, true, false, [], ◌∷◌,
  ◌++◌, map, arith, length, ltb, ◌==◌, if◌then◌else◌, inl, inr, Bool-cases,
}
use paschal.Base.Bytes.{Bytes, bytes_eq, bytes_eq→≡, bytes_eq_refl}
use paschal.Crypto.{Primitives}

-- `k.resize(n, 0)` of at most n bytes.
abbrev pub pad : ℕ → Bytes → Bytes
pad zero k = k
pad (suc n) [] = 0 ∷ pad n []
pad (suc n) (b ∷ k) = b ∷ pad n k

unfoldable pub hmac_sha256 : ⦃c : Primitives⦄ → Bytes → Bytes → Bytes
hmac_sha256 ⦃c⦄ key msg =
    let k = pad 64 (if ltb 64 (length key) then c.sha256 key else key) in
    let ipad = map (λ b. bit_xor b 0x36) k in
    let opad = map (λ b. bit_xor b 0x5c) k in c.sha256 (opad ++ c.sha256 (ipad ++ msg))

-- The loop over the pairs, with `diff` so far.
unfoldable pub diff_loop : ℕ → Bytes → Bytes → ℕ
diff_loop diff [] b = diff
diff_loop diff (x ∷ a) [] = diff
diff_loop diff (x ∷ a) (y ∷ b) = diff_loop (bit_or diff (bit_xor x y)) a b

unfoldable pub constant_time_eq : Bytes → Bytes → Bool
unfolding diff_loop
constant_time_eq a b = if length a == length b then diff_loop 0 a b == 0 else false

digits-max : (n a b : ℕ) → a ≤ n → digits (λ c. c) max n a b ≡ 0 → (a ≡ 0) × (b ≡ 0)
digits-max zero a b h k = (omega arith, k)
digits-max (suc n) zero b h k = (refl, k)
digits-max (suc n) (suc a) b h k =
    let (low, high) = digits-max n (suc a / 2) (b / 2) (omega arith) (omega arith) in
    (omega arith, omega arith)

differ-≡ : (x y : ℕ) → differ x y ≡ 0 → x ≡ y
differ-≡ zero y h = omega arith
differ-≡ (suc x) zero h = h
differ-≡ (suc x) (suc y) h = omega (arith, differ-≡ x y h)

differ_self : (x : ℕ) → differ x x ≡ 0
differ_self zero = refl
differ_self (suc x) = differ_self x

digits-differ : (n a b : ℕ) → a ≤ n → digits (λ c. c) differ n a b ≡ 0 → a ≡ b
digits-differ zero a b h k = omega arith
digits-differ (suc n) zero b h k = omega arith
digits-differ (suc n) (suc a) b h k =
    let halves = digits-differ n (suc a / 2) (b / 2) (omega arith) (omega arith) in
    let parity = differ-≡ (suc a % 2) (b % 2) (omega arith) in omega arith

digits-differ_self : (n a : ℕ) → a ≤ n → digits (λ c. c) differ n a a ≡ 0
digits-differ_self zero a h = omega arith
digits-differ_self (suc n) zero h = refl
digits-differ_self (suc n) (suc a) h =
    omega (arith, digits-differ_self n (suc a / 2) (omega arith), differ_self (suc a % 2))

bit_or-zero : (a b : ℕ) → bit_or a b ≡ 0 → (a ≡ 0) × (b ≡ 0)
bit_or-zero a b h =
    digits-max a a b (omega arith) (subst (λ n. n ≡ 0) (λ i. bit_or-bitwise a b i) h)

bit_xor-zero : (a b : ℕ) → bit_xor a b ≡ 0 → a ≡ b
bit_xor-zero a b h =
    digits-differ a a b (omega arith) (subst (λ n. n ≡ 0) (λ i. bit_xor-bitwise a b i) h)

bit_xor_self : (a : ℕ) → bit_xor a a ≡ 0
bit_xor_self a = (λ i. bit_xor-bitwise a a i) ∙ digits-differ_self a a (omega arith)

diff_loop-zero :
    (diff : ℕ) (a b : Bytes) → length a ≡ length b → diff_loop diff a b ≡ 0 → (diff ≡ 0) × (a ≡ b)
unfolding diff_loop
diff_loop-zero diff [] [] h k = (k, refl)
diff_loop-zero diff [] (y ∷ b) h k = absurd (omega arith)
diff_loop-zero diff (x ∷ a) [] h k = absurd (omega arith)
diff_loop-zero diff (x ∷ a) (y ∷ b) h k =
    let (now, rest) = diff_loop-zero (bit_or diff (bit_xor x y)) a b (omega arith) k in
    let (before, same) = bit_or-zero diff (bit_xor x y) now in
    (before, cc (bit_xor-zero x y same, rest))

diff_loop_self : (a : Bytes) → diff_loop 0 a a ≡ 0
unfolding diff_loop
diff_loop_self [] = refl
diff_loop_self (x ∷ a) = rw (bit_xor_self x) (diff_loop_self a)

constant_time_eq_self : (a : Bytes) → constant_time_eq a a ≡ true
unfolding constant_time_eq
constant_time_eq_self a = rw (==_refl (length a)) (rw (diff_loop_self a) refl)

pub constant_time_eq→≡ : (a b : Bytes) → constant_time_eq a b ≡ true → a ≡ b
unfolding constant_time_eq
constant_time_eq→≡ a b h = (diff_loop-zero 0 a b (ground arith) (ground arith)).1

-- The comparison that reads every byte answers what the comparison answers that stops at the
-- first difference, for all byte strings, also of different lengths.
pub constant_time_eq-bytes_eq : (a b : Bytes) → constant_time_eq a b ≡ bytes_eq a b
constant_time_eq-bytes_eq a b = elim (Bool-cases (bytes_eq a b)) [
  | inl e ↦ rw (bytes_eq→≡ a b e) (constant_time_eq_self b ∙ sym (bytes_eq_refl b))
  | inr e ↦ elim (Bool-cases (constant_time_eq a b)) [
    | inl t ↦ absurd (
        ground
          (arith, e, subst (λ z. bytes_eq a z ≡ true) (constant_time_eq→≡ a b t) (bytes_eq_refl a)))
    | inr t ↦ t ∙ sym e
  ]
]
