-- ===== src/App/Monad.antt =====
-- A handler or a worker: it changes the world and returns or fails. A failure keeps what was
-- changed before it, since the program uses no transactions.
pub mod Laws
use paschal.Base.{
  ℕ, suc, String, Bool, true, false, List, [], ◌∷◌, ◌++◌, Result, ok, err, Option, none, some,
}
use paschal.Db.Tables
use paschal.Db.Tables.{Store, DbError, unique_violation}
use paschal.App.World.{
  World, Platform, ApiError, Message, Template, Metrics, Timer, not_found, internal,
}

abbrev pub Api : Type 0 → Type 0
Api A = World → Result ApiError A × World

abbrev pub continue :
    {A B : Type 0} → Result ApiError A × World → (A → Api B) → Result ApiError B × World
continue (ok a, w) f = f a w
continue (err e, w) f = (err e, w)

infixl 5 ◌>>=◌ ◌>>◌
abbrev pub ◌>>=◌ : {A B : Type 0} → Api A → (A → Api B) → Api B
◌>>=◌ m f w = continue (m w) f

abbrev pub ◌>>◌ : {A B : Type 0} → Api A → Api B → Api B
m >> k = m >>= λ _. k

abbrev pub pure : {A : Type 0} → A → Api A
pure a w = (ok a, w)

abbrev pub fail : {A : Type 0} → ApiError → Api A
fail e w = (err e, w)

-- `.ok_or(e)?`
abbrev pub require : {A : Type 0} → ApiError → Option A → Api A
require e none = fail e
require e (some a) = pure a

-- `if !condition { return Err(e) }`
abbrev pub ensure : Bool → ApiError → Api (Unit {0})
ensure true e w = (ok tt, w)
ensure false e w = (err e, w)

-- `From<DbError> for ApiError`
abbrev pub api_error : DbError → ApiError
api_error Tables.not_found = not_found
api_error Tables.row_not_found = internal
api_error unique_violation = internal

abbrev pub lift_result : {A : Type 0} → Result DbError A → Result ApiError A
lift_result (ok a) = ok a
lift_result (err e) = err (api_error e)

-- A SELECT.
abbrev pub ask : {A : Type 0} → (Store → A) → Api A
ask q w = (ok (q w.db), w)

abbrev pub ask_result : {A : Type 0} → (Store → Result DbError A) → Api A
ask_result q w = (lift_result (q w.db), w)

-- A statement that changes the database, with no result, with one, and with one that may fail.
abbrev pub exec : (Store → Store) → Api (Unit {0})
exec f w = (ok tt, record w { db = f w.db })

abbrev pub call : {A : Type 0} → (Store → A × Store) → Api A
call f w = (ok (f w.db).0, record w { db = (f w.db).1 })

abbrev pub call_result : {A : Type 0} → (Store → Result DbError A × Store) → Api A
call_result f w = (lift_result (f w.db).0, record w { db = (f w.db).1 })

-- `if let Err(e) = m { log }`, `let _ = m`
abbrev pub ignore_errors : {A : Type 0} → Api A → Api (Unit {0})
ignore_errors m w = (ok tt, (m w).1)

abbrev pub notify : Template → String → Api (Unit {0})
notify template to w =
    (ok tt, record w { outbox = w.outbox ++ record { template = template; to = to } ∷ [] })

abbrev pub count : (Metrics → Metrics) → Api (Unit {0})
count f w = (ok tt, record w { metrics = f w.metrics })

abbrev pub spawn : Timer → Api (Unit {0})
spawn timer w = (ok tt, record w { timers = w.timers ++ timer ∷ [] })

-- `for x in xs { body(x)?; }`
abbrev pub for_each : {A : Type 0} → List A → (A → Api (Unit {0})) → Api (Unit {0})
for_each [] body = pure tt
for_each (x ∷ xs) body = let rest = for_each xs body in body x >> rest

-- A random number.
abbrev pub draw : ⦃p : Platform⦄ → Api ℕ
draw ⦃p⦄ w = (ok (p.random w.drawn), record w { drawn = suc w.drawn })
