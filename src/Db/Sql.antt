-- ===== src/Db/Sql.antt =====
-- The SQL statements that crates/beacon-db/src/lib.rs issues, over a table as the list of its rows:
-- SELECT, UPDATE, DELETE with a WHERE test, `rows_affected`, `fetch_optional`, ORDER BY.
pub mod Lookup
pub mod Upsert
use paschal.Base.{
  ℕ, zero, suc, ◌+◌, ◌≤◌, ◌≡◌, refl, ◌∙◌, ap, Bool, true, false, ◌&&◌, List, [], ◌∷◌, ◌++◌, Option,
  none, some, arith, All, any, length, leb, if◌then◌else◌, Bool-cases, inl, inr,
}

module _ {ℓ} {A : Type ℓ} where
  unfoldable pub select : (A → Bool) → List A → List A
  select p [] = []
  select p (r ∷ rs) = let rest = select p rs in if p r then r ∷ rest else rest

  -- UPDATE … SET f WHERE p
  unfoldable pub update : (A → Bool) → (A → A) → List A → List A
  update p f [] = []
  update p f (r ∷ rs) = (if p r then f r else r) ∷ update p f rs

  unfoldable pub delete : (A → Bool) → List A → List A
  delete p [] = []
  delete p (r ∷ rs) = let rest = delete p rs in if p r then rest else r ∷ rest

  -- `rows_affected` of a statement with this WHERE test.
  unfoldable pub affected : (A → Bool) → List A → ℕ
  affected p [] = 0
  affected p (r ∷ rs) = (if p r then 1 else 0) + affected p rs

  -- `fetch_optional`: the first row that passes.
  unfoldable pub first : (A → Bool) → List A → Option A
  first p [] = none
  first p (r ∷ rs) = let rest = first p rs in if p r then some r else rest

  -- INSERT
  unfoldable pub insert : A → List A → List A
  insert r rows = rows ++ r ∷ []

  -- INSERT … ON CONFLICT DO UPDATE, with the test for the conflict; ON CONFLICT DO NOTHING is the
  -- update by the identity.
  unfoldable pub upsert : (A → Bool) → (A → A) → A → List A → List A
  unfolding first insert
  upsert p f row rows = elim (first p rows) [ none ↦ insert row rows | some old ↦ update p f rows ]

  -- LIMIT n
  unfoldable pub limit : ℕ → List A → List A
  limit zero rows = []
  limit (suc n) [] = []
  limit (suc n) (r ∷ rs) = r ∷ limit n rs

  unfoldable pub reverse_onto : List A → List A → List A
  reverse_onto [] acc = acc
  reverse_onto (r ∷ rs) acc = reverse_onto rs (r ∷ acc)

  -- ORDER BY a numeric key, ascending; equal keys keep their order.
  unfoldable pub place : (A → ℕ) → A → List A → List A
  place key r [] = r ∷ []
  place key r (x ∷ xs) =
      let rest = place key r xs in if leb (key r) (key x) then r ∷ x ∷ xs else x ∷ rest

  unfoldable pub order_by : (A → ℕ) → List A → List A
  unfolding place
  order_by key [] = []
  order_by key (r ∷ rs) = place key r (order_by key rs)

  -- ORDER BY key DESC
  unfoldable pub order_by_desc : (A → ℕ) → List A → List A
  unfolding order_by reverse_onto
  order_by_desc key rows = reverse_onto (order_by key rows) []

  -- ORDER BY key DESC LIMIT 1
  unfoldable pub latest : (A → ℕ) → List A → Option A
  latest key [] = none
  latest key (r ∷ rs) = elim (latest key rs) [
    | none ↦ some r
    | some x ↦ if leb (key x) (key r) then some r else some x
  ]

  pub All-select {κ} :
      (P : A → Type κ) (p : A → Bool) (rows : List A) → All P rows → All P (select p rows)
  unfolding select
  All-select P p [] h = h
  All-select P p (r ∷ rs) h = elim (Bool-cases (p r)) [
    | inl e ↦ rw e (h.0, All-select P p rs h.1)
    | inr e ↦ rw e (All-select P p rs h.1)
  ]

  -- What holds of every row holds after an UPDATE that keeps it.
  pub All-update {κ} :
      (P : A → Type κ) (p : A → Bool) (f : A → A) (rows : List A)
      → ((r : A) → p r ≡ true → P r → P (f r))
      → All P rows
      → All P (update p f rows)
  unfolding update
  All-update P p f [] keep h = h
  All-update P p f (r ∷ rs) keep h = elim (Bool-cases (p r)) [
    | inl e ↦ rw e (keep r e h.0, All-update P p f rs keep h.1)
    | inr e ↦ rw e (h.0, All-update P p f rs keep h.1)
  ]

  -- An UPDATE whose new rows fail its own test has nothing left to do.
  pub affected-update :
      (p : A → Bool) (f : A → A) (rows : List A)
      → ((r : A) → p (f r) ≡ false)
      → affected p (update p f rows) ≡ 0
  unfolding affected update
  affected-update p f [] done = refl
  affected-update p f (r ∷ rs) done = elim (Bool-cases (p r)) [
    | inl e ↦ rw (e, done r) (omega (arith, affected-update p f rs done))
    | inr e ↦ rw (e, e) (omega (arith, affected-update p f rs done))
  ]

  pub first_holds : (p : A → Bool) (rows : List A) (r : A) → first p rows ≡ some r → p r ≡ true
  unfolding first
  first_holds p [] r h = ground arith
  first_holds p (x ∷ xs) r h = ground (arith, first_holds p xs r)

  -- A lookup by a key that the UPDATE leaves alone finds the row as the UPDATE left it.
  pub first-update :
      (k p : A → Bool) (f : A → A) (rows : List A)
      → ((r : A) → k (f r) ≡ k r)
      → first k (update p f rows)
        ≡ elim (first k rows) [ none ↦ none | some r ↦ some (if p r then f r else r) ]
  unfolding first update
  first-update k p f [] same = refl
  first-update k p f (r ∷ rs) same = ground (arith, same r, first-update k p f rs same)

module _ {ℓ} {A : Type ℓ} where
  affected_none :
      (k q : A → Bool) (rows : List A) → affected k rows ≡ 0 → affected (λ r. k r && q r) rows ≡ 0
  unfolding affected
  affected_none k q [] h = refl
  affected_none k q (r ∷ rs) h = ground (arith, affected_none k q rs)

  -- With a key that exactly one row has, a narrower WHERE test affects that row or none.
  pub affected_key :
      (k q : A → Bool) (rows : List A) (r : A)
      → affected k rows ≡ 1
      → first k rows ≡ some r
      → affected (λ x. k x && q x) rows ≡ (if q r then 1 else 0)
  unfolding affected first
  affected_key k q [] r one h = ground arith
  affected_key k q (x ∷ xs) r one h = ground (arith, affected_none k q xs, affected_key k q xs r)

  -- An UPDATE that leaves a key alone leaves the number of its rows alone.
  pub affected-update_key :
      (k p : A → Bool) (f : A → A) (rows : List A)
      → ((r : A) → k (f r) ≡ k r)
      → affected k (update p f rows) ≡ affected k rows
  unfolding affected update
  affected-update_key k p f [] same = refl
  affected-update_key k p f (r ∷ rs) same =
      ground (arith, same r, affected-update_key k p f rs same)

  pub update_none :
      (p : A → Bool) (f : A → A) (rows : List A) → affected p rows ≡ 0 → update p f rows ≡ rows
  unfolding affected update
  update_none p f [] h = refl
  update_none p f (r ∷ rs) h = ground (arith, update_none p f rs)

  -- An UPDATE of other rows is not seen by a lookup.
  pub first-update_other :
      (k p : A → Bool) (f : A → A) (rows : List A)
      → ((r : A) → k (f r) ≡ k r)
      → ((r : A) → k r ≡ true → p r ≡ false)
      → first k (update p f rows) ≡ first k rows
  unfolding first update
  first-update_other k p f [] same apart = refl
  first-update_other k p f (r ∷ rs) same apart =
      ground (arith, same r, apart r, first-update_other k p f rs same apart)
