-- ===== src/Routes/Accounts/Signup.antt =====
-- crates/beacon-api/src/routes.rs: what sign-up and sign-in by mail give to someone who only knows
-- an address.
use paschal.Base.{ℕ, String, ◌≡◌, refl, true, ok, Option-cases, inl, inr}
use paschal.Base.Text.{contains}
use paschal.Db.Accounts.{fetch_principal_by_email, create_magic_link}
use paschal.App.World.{World, Platform}
use paschal.Routes.Accounts.{send_magic_link, signin}

-- The answer to a sign-in by mail is the same for an address with an account and for one without,
-- and no session is made.
pub signin_reveals_nothing :
    ⦃p : Platform⦄ (now : ℕ) (email : String) (w : World)
    → contains b'@' email ≡ true
    → let (answer, w') = signin now email w in
      (answer ≡ ok "sent") × (w'.db.sessions ≡ w.db.sessions)
unfolding signin send_magic_link create_magic_link
signin_reveals_nothing now email w valid =
    elim (Option-cases (fetch_principal_by_email email w.db)) [
      | inl unknown ↦ rw valid (rw unknown (refl, refl))
      | inr (owner, known) ↦ rw valid (rw known (refl, refl))
    ]
