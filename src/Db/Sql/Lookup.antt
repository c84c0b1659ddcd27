-- ===== src/Db/Sql/Lookup.antt =====
-- What a lookup or a test over a table finds after an INSERT, an UPDATE, a SELECT or an ORDER BY.
use paschal.Base.{
  ℕ, ◌≡◌, refl, ap, ◌∙◌, Bool, true, false, ◌&&◌, ◌||◌, List, [], ◌∷◌, none, some, arith, any,
  if◌then◌else◌, map,
}
use paschal.Db.Sql.{
  select, update, affected, first, insert, place, order_by, first-update, affected-update_key,
}

module _ {ℓ} {A : Type ℓ} where
  -- A lookup in vain before an INSERT sees at most the new row.
  pub first-insert :
      (p : A → Bool) (row : A) (rows : List A)
      → first p rows ≡ none
      → first p (insert row rows) ≡ (if p row then some row else none)
  unfolding first insert
  first-insert p row [] h = refl
  first-insert p row (r ∷ rs) h = ground (arith, first-insert p row rs)

  -- Fewer rows pass a narrower test.
  pub first_narrow :
      (k p : A → Bool) (rows : List A)
      → ((r : A) → p r ≡ true → k r ≡ true)
      → first k rows ≡ none
      → first p rows ≡ none
  unfolding first
  first_narrow k p [] sub h = refl
  first_narrow k p (r ∷ rs) sub h = ground (arith, sub r, first_narrow k p rs sub)

  -- An UPDATE that reaches all rows of a lookup, and takes them out of it, leaves none.
  pub first-update_gone :
      (q p : A → Bool) (f : A → A) (rows : List A)
      → ((r : A) → q r ≡ true → p r ≡ true)
      → ((r : A) → p r ≡ true → q (f r) ≡ false)
      → first q (update p f rows) ≡ none
  unfolding first update
  first-update_gone q p f [] reach out = refl
  first-update_gone q p f (r ∷ rs) reach out =
      ground (arith, reach r, out r, first-update_gone q p f rs reach out)

  pub any-select :
      (q p : A → Bool) (rows : List A) → any q (select p rows) ≡ any (λ r. q r && p r) rows
  unfolding select
  any-select q p [] = refl
  any-select q p (r ∷ rs) = ground (arith, any-select q p rs)

  any-place :
      (q : A → Bool) (key : A → ℕ) (row : A) (rows : List A)
      → any q (place key row rows) ≡ (q row || any q rows)
  unfolding place
  any-place q key row [] = refl
  any-place q key row (r ∷ rs) = ground (arith, any-place q key row rs)

  pub any-order_by :
      (q : A → Bool) (key : A → ℕ) (rows : List A) → any q (order_by key rows) ≡ any q rows
  unfolding order_by
  any-order_by q key [] = refl
  any-order_by q key (r ∷ rs) =
      ground (arith, any-place q key r (order_by key rs), any-order_by q key rs)

  pub any-ext : (p q : A → Bool) (rows : List A) → ((r : A) → p r ≡ q r) → any p rows ≡ any q rows
  any-ext p q [] e = refl
  any-ext p q (r ∷ rs) e = ground (arith, e r, any-ext p q rs e)

  -- After an UPDATE that takes its rows out of a test, the test sees no row that it reached.
  pub any-update_gone :
      (q p : A → Bool) (f : A → A) (rows : List A)
      → ((r : A) → q r ≡ true → p r ≡ true)
      → ((r : A) → p r ≡ true → q (f r) ≡ false)
      → any q (update p f rows) ≡ false
  unfolding update
  any-update_gone q p f [] reach out = refl
  any-update_gone q p f (r ∷ rs) reach out =
      ground (arith, reach r, out r, any-update_gone q p f rs reach out)

  pub any-insert :
      (q : A → Bool) (row : A) (rows : List A) → any q (insert row rows) ≡ (q row || any q rows)
  unfolding insert
  any-insert q row [] = refl
  any-insert q row (r ∷ rs) = ground (arith, any-insert q row rs)

  pub any_narrow :
      (k p : A → Bool) (rows : List A)
      → ((r : A) → p r ≡ true → k r ≡ true)
      → any k rows ≡ false
      → any p rows ≡ false
  any_narrow k p [] sub h = refl
  any_narrow k p (r ∷ rs) sub h = ground (arith, sub r, any_narrow k p rs sub)

  any_nothing :
      (k q : A → Bool) (rows : List A) → affected k rows ≡ 0 → any (λ r. k r && q r) rows ≡ false
  unfolding affected
  any_nothing k q [] h = refl
  any_nothing k q (r ∷ rs) h = ground (arith, any_nothing k q rs)

  -- With a key that exactly one row has, a test on the key's rows is a test on that row.
  pub any_key :
      (k q : A → Bool) (rows : List A) (r : A)
      → affected k rows ≡ 1
      → first k rows ≡ some r
      → any (λ x. k x && q x) rows ≡ q r
  unfolding affected first
  any_key k q [] r one h = ground arith
  any_key k q (x ∷ xs) r one h = ground (arith, any_nothing k q xs, any_key k q xs r)

  -- The same after an UPDATE that leaves the key alone.
  pub any-update_key :
      (k q p : A → Bool) (f : A → A) (rows : List A) (r : A)
      → ((x : A) → k (f x) ≡ k x)
      → affected k rows ≡ 1
      → first k rows ≡ some r
      → any (λ x. k x && q x) (update p f rows) ≡ q (if p r then f r else r)
  any-update_key k q p f rows r same one h =
      any_key k q (update p f rows) (if p r then f r else r)
        (affected-update_key k p f rows same ∙ one) (first-update k p f rows same ∙ rw h refl)

  pub affected-first-none :
      (p : A → Bool) (rows : List A) → first p rows ≡ none → affected p rows ≡ 0
  unfolding first affected
  affected-first-none p [] h = refl
  affected-first-none p (r ∷ rs) h = ground (arith, affected-first-none p rs)

pub any-map {ℓ κ} :
    {A : Type ℓ} {B : Type κ} (q : B → Bool) (f : A → B) (xs : List A)
    → any q (map f xs) ≡ any (λ x. q (f x)) xs
any-map q f [] = refl
any-map q f (x ∷ xs) = ap (λ b. q (f x) || b) (any-map q f xs)
