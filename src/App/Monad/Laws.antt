-- ===== src/App/Monad/Laws.antt =====
-- A chain whose first step succeeds goes on from the world that the step leaves.
use paschal.Base.{
  ◌≡◌, refl, ap, ◌∙◌, Bool, true, false, List, [], ◌∷◌, Result, ok, err, any, is_ok, Option, none,
  some, arith,
}
use paschal.App.World.{World, ApiError}
use paschal.Db.Tables.{Store, DbError}
use paschal.App.Monad.{pure, Api, require, ◌>>=◌, continue, ensure, for_each, ask_result, lift_result}

continue_ok :
    {A B : Type 0} (r : Result ApiError A) (w : World) (f : A → Api B) (a : A)
    → r ≡ ok a
    → continue (r, w) f ≡ f a w
continue_ok r w f a h = rw h refl

pub bind-ok :
    {A B : Type 0} (m : Api A) (f : A → Api B) (w : World) (a : A)
    → (m w).0 ≡ ok a
    → (m >>= f) w ≡ f a (m w).1
bind-ok m f w a h = continue_ok (m w).0 (m w).1 f a h

-- What a chain leaves alone: it is the same after the chain, however it ends.
abbrev pub Keeps : {A B : Type 0} → (World → B) → Api A → Type 0
Keeps g m = (w : World) → g (m w).1 ≡ g w

pub Keeps->>= :
    {A B C : Type 0} (g : World → C) (m : Api A) (f : A → Api B)
    → Keeps g m
    → ((a : A) → Keeps g (f a))
    → Keeps g (m >>= f)
Keeps->>= {A} g m f km kf w = after_first (m w).0 (m w).1 ∙ km w
  where
    after_first : (r : Result ApiError A) (w' : World) → g (continue (r, w') f).1 ≡ g w'
    after_first (ok a) w' = kf a w'
    after_first (err e) w' = refl

-- A loop leaves alone what its body leaves alone for every element that passes no test.
pub Keeps-for_each :
    {A C : Type 0} (g : World → C) (q : A → Bool) (xs : List A) (body : A → Api (Unit {0}))
    → ((a : A) → q a ≡ false → Keeps g (body a))
    → any q xs ≡ false
    → Keeps g (for_each xs body)
Keeps-for_each g q [] body kb none_left = λ w. refl
Keeps-for_each g q (x ∷ xs) body kb none_left =
    Keeps->>= g (body x) (λ _. for_each xs body) (kb x (ground arith))
      (λ _. Keeps-for_each g q xs body kb (ground arith))

-- What a chain that succeeded did in its first step.
pub ok->>= :
    {A B : Type 0} (m : Api A) (f : A → Api B) (w w' : World) (b : B)
    → (m >>= f) w ≡ (ok b, w')
    → (a : A) × (w₁ : World) × (m w ≡ (ok a, w₁)) × (f a w₁ ≡ (ok b, w'))
ok->>= {A} {B} m f w w' b h = from_result (m w) refl h
  where
    from_result :
        (r : Result ApiError A × World)
        → m w ≡ r
        → continue r f ≡ (ok b, w')
        → (a : A) × (w₁ : World) × (m w ≡ (ok a, w₁)) × (f a w₁ ≡ (ok b, w'))
    from_result (ok a, w₁) same k = (a, w₁, same, k)
    from_result (err e, w₁) same k = absurd (ground (arith, ap (λ r. r.0) k))

pub ok-ensure :
    (c : Bool) (e : ApiError) (w w' : World) (u : Unit {0})
    → ensure c e w ≡ (ok u, w')
    → (c ≡ true) × (w ≡ w')
ok-ensure true e w w' u h = (refl, ap (λ r. r.1) h)
ok-ensure false e w w' u h = absurd (ground (arith, ap (λ r. r.0) h))

-- A chain whose first step failed.
pub err->>= :
    {A B : Type 0} (m : Api A) (f : A → Api B) (w w' : World) (e : ApiError)
    → m w ≡ (err e, w')
    → (m >>= f) w ≡ (err e, w')
err->>= m f w w' e h = ap (λ r. continue r f) h

-- A chain whose first step fails ends where that step ends.
pub refused->>= :
    {A B : Type 0} (m : Api A) (f : A → Api B) (w : World)
    → is_ok (m w).0 ≡ false
    → (is_ok ((m >>= f) w).0 ≡ false) × (((m >>= f) w).1 ≡ (m w).1)
refused->>= {A} {B} m f w h = after_first (m w) h
  where
    after_first :
        (r : Result ApiError A × World)
        → is_ok r.0 ≡ false
        → (is_ok (continue r f).0 ≡ false) × ((continue r f).1 ≡ r.1)
    after_first (ok a, w') k = absurd (ground (arith, k))
    after_first (err e, w') k = (refl, refl)

-- What `.ok_or(e)?` found.
pub ok-require :
    {A : Type 0} (e : ApiError) (o : Option A) (w w' : World) (a : A)
    → require e o w ≡ (ok a, w')
    → (o ≡ some a) × (w ≡ w')
ok-require e none w w' a h = absurd (ground (arith, ap (λ r. r.0) h))
ok-require e (some b) w w' a h = (ground (arith, ap (λ r. r.0) h), ap (λ r. r.1) h)

ok-lift_result : {A : Type 0} (r : Result DbError A) (a : A) → lift_result r ≡ ok a → r ≡ ok a
ok-lift_result (ok b) a h = ground (arith, h)
ok-lift_result (err e) a h = absurd (ground (arith, h))

pub ok-ask_result :
    {A : Type 0} (q : Store → Result DbError A) (w w' : World) (a : A)
    → ask_result q w ≡ (ok a, w')
    → (q w.db ≡ ok a) × (w ≡ w')
ok-ask_result q w w' a h = (ok-lift_result (q w.db) a (ap (λ r. r.0) h), ap (λ r. r.1) h)

-- Equal answers with two components have equal components.
pub ok_components :
    {A B : Type 0} (a a' : A) (b b' : B) (w w' : World)
    → pure {A = A × B} (a, b) w ≡ (ok (a', b'), w')
    → (a ≡ a') × (b ≡ b')
ok_components a a' b b' w w' h =
    (ground (arith, ap (λ r. r.0) h), ground (arith, ap (λ r. r.0) h))

pub ok_answer : {A : Type 0} (a a' : A) (w w' : World) → pure a w ≡ (ok a', w') → a ≡ a'
ok_answer a a' w w' h = ground (arith, ap (λ r. r.0) h)
