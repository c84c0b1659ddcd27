-- ===== src/Db/Sql/Upsert.antt =====
-- What a lookup finds after a DELETE and after INSERT … ON CONFLICT.
use paschal.Base.{
  ◌≡◌, refl, ◌∙◌, Bool, true, false, List, [], ◌∷◌, none, some, arith, any, ap, Option-cases, inl,
  inr,
}
use paschal.Db.Sql.{delete, update, affected, first, upsert}
use paschal.Db.Sql.Lookup.{first-insert}

module _ {ℓ} {A : Type ℓ} where
  -- A DELETE that reaches all rows of a lookup leaves none.
  pub first-delete_gone :
      (k p : A → Bool) (rows : List A)
      → ((r : A) → k r ≡ true → p r ≡ true)
      → first k (delete p rows) ≡ none
  unfolding first delete
  first-delete_gone k p [] reach = refl
  first-delete_gone k p (r ∷ rs) reach = ground (arith, reach r, first-delete_gone k p rs reach)

  -- A DELETE of other rows is not seen by a lookup.
  pub first-delete_other :
      (k p : A → Bool) (rows : List A)
      → ((r : A) → k r ≡ true → p r ≡ false)
      → first k (delete p rows) ≡ first k rows
  unfolding first delete
  first-delete_other k p [] apart = refl
  first-delete_other k p (r ∷ rs) apart = ground (arith, apart r, first-delete_other k p rs apart)

  pub any-delete_gone :
      (k p : A → Bool) (rows : List A)
      → ((r : A) → k r ≡ true → p r ≡ true)
      → any k (delete p rows) ≡ false
  unfolding delete
  any-delete_gone k p [] reach = refl
  any-delete_gone k p (r ∷ rs) reach = ground (arith, reach r, any-delete_gone k p rs reach)

  pub delete_none : (p : A → Bool) (rows : List A) → affected p rows ≡ 0 → delete p rows ≡ rows
  unfolding affected delete
  delete_none p [] h = refl
  delete_none p (r ∷ rs) h = ground (arith, delete_none p rs)

  pub delete_never : (rows : List A) → delete (λ _. false) rows ≡ rows
  unfolding delete
  delete_never [] = refl
  delete_never (r ∷ rs) = ap (◌∷◌ r) (delete_never rs)

  first-update_self :
      (p : A → Bool) (f : A → A) (rows : List A) (old : A)
      → ((r : A) → p r ≡ true → p (f r) ≡ true)
      → first p rows ≡ some old
      → first p (update p f rows) ≡ some (f old)
  unfolding first update
  first-update_self p f [] old keep h = absurd (ground arith)
  first-update_self p f (r ∷ rs) old keep h =
      ground (arith, keep r, first-update_self p f rs old keep)

  -- After an upsert the lookup by its key finds the old row as updated, or the new row.
  pub first-upsert :
      (p : A → Bool) (f : A → A) (row : A) (rows : List A)
      → p row ≡ true
      → ((r : A) → p r ≡ true → p (f r) ≡ true)
      → first p (upsert p f row rows) ≡ some (elim (first p rows) [ none ↦ row | some old ↦ f old ])
  unfolding upsert
  first-upsert p f row rows new keep = elim (Option-cases (first p rows)) [
    | inl e ↦ rw (e, upsert) (first-insert p row rows e ∙ rw new refl)
    | inr (old, e) ↦ rw (e, upsert) (first-update_self p f rows old keep e)
  ]
