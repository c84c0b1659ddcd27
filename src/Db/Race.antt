-- ===== src/Db/Race.antt =====
-- Several workers that try the same conditional update one after the other, as the database
-- serialises them.
use paschal.Base.{ℕ, zero, suc, ◌+◌, ◌≡◌, Bool, true, false, arith, if◌then◌else◌}
use paschal.Db.Tables.{Store}

-- How many of `workers` attempts win.
pub wins : (Store → Bool × Store) → ℕ → Store → ℕ
wins attempt zero s = 0
wins attempt (suc workers) s =
    let (won, s') = attempt s in (if won then 1 else 0) + wins attempt workers s'

wins_settled :
    (attempt : Store → Bool × Store) (workers : ℕ) (s : Store)
    → attempt s ≡ (false, s)
    → wins attempt workers s ≡ 0
unfolding wins
wins_settled attempt zero s h = ground arith
wins_settled attempt (suc workers) s h = rw h (omega (arith, wins_settled attempt workers s h))

-- An attempt that wins now and leaves nothing to win is won by exactly one worker.
pub wins_once :
    (attempt : Store → Bool × Store) (workers : ℕ) (s : Store)
    → (attempt s).0 ≡ true
    → attempt (attempt s).1 ≡ (false, (attempt s).1)
    → wins attempt (suc workers) s ≡ 1
unfolding wins
wins_once attempt workers s won settled =
    rw won (omega (arith, wins_settled attempt workers (attempt s).1 settled))
