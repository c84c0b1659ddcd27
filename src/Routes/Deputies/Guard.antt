-- ===== src/Routes/Deputies/Guard.antt =====
-- Requests of deputies that are refused.
use paschal.Base.{
  ℕ, ◌≡◌, ◌≢◌, refl, Bool, true, false, ◌&&◌, Option, some, none, Result, ok, err, is_ok, arith,
  ◌==◌,
}
use paschal.Domain.VaultState.{released, eq}
use paschal.Domain.VaultState.Codec.{eq→≡}
use paschal.Db.Tables.{Vault, Letter, co_steward_is_active}
use paschal.Db.Vaults.{fetch_vault}
use paschal.Db.Letters.{fetch_letter}
use paschal.Db.Deputies.{fetch_co_steward}
use paschal.App.World.{World, Platform, ApiError, unauthorised, not_found}
use paschal.App.Monad.{require, Api, ◌>>=◌, continue, ask_result, ensure}
use paschal.Routes.Auth.{current_co_steward}
use paschal.Routes.Deputies.{authorise_postmortem, co_steward_release_event_letter}

-- A request that was refused: an error, and everything as it was.
abbrev pub IsRefused : {A : Type 0} → Result ApiError A × World → World → Type 0
IsRefused out w = (is_ok out.0 ≡ false) × (out.1 ≡ w)

-- A chain whose first step only reads is refused if all that may follow is.
IsRefused->>= :
    {A B : Type 0} (m : Api A) (f : A → Api B) (w : World)
    → (m w).1 ≡ w
    → ((a : A) → (m w).0 ≡ ok a → IsRefused (f a w) w)
    → IsRefused ((m >>= f) w) w
IsRefused->>= {A} m f w reads next = from_result (m w).0 (m w).1 reads next
  where
    from_result :
        (r : Result ApiError A) (w' : World)
        → w' ≡ w
        → ((a : A) → r ≡ ok a → IsRefused (f a w) w)
        → IsRefused (continue (r, w') f) w
    from_result (ok a) w' same next = rw same (next a refl)
    from_result (err e) w' same next = (refl, same)

ensure_reads : (b : Bool) (e : ApiError) (w : World) → (ensure b e w).1 ≡ w
ensure_reads true e w = refl
ensure_reads false e w = refl

require_reads : {A : Type 0} (e : ApiError) (o : Option A) (w : World) → (require e o w).1 ≡ w
require_reads e none w = refl
require_reads e (some a) w = refl

module _ (co_id pid vault_id : ℕ) (w : World) (v : Vault) (h : fetch_vault vault_id w.db ≡ ok v)
    (held : eq v.state released ≡ false) where
  authorise_postmortem-IsRefused : IsRefused (authorise_postmortem co_id pid vault_id w) w
  unfolding authorise_postmortem
  authorise_postmortem-IsRefused =
      IsRefused->>= (ask_result (fetch_co_steward co_id)) _ w refl λ co _.
        IsRefused->>= (ensure (co_steward_is_active co && co.principal_id == pid) unauthorised) _ w
          (ensure_reads _ unauthorised w)
          λ _ _. rw h (
            IsRefused->>= (ensure (v.principal_id == pid) not_found) _ w
              (ensure_reads _ not_found w) λ _ _. rw held (refl, refl))

module _ ⦃p : Platform⦄ where
  pub current_co_steward_reads :
      (now : ℕ) (headers : Option ℕ) (w : World) → (current_co_steward now headers w).1 ≡ w
  unfolding current_co_steward
  current_co_steward_reads now none w = refl
  current_co_steward_reads now (some token) w = require_reads unauthorised _ w

  -- No deputy, with whatever session, can send a letter that exists while its vault, which
  -- exists, is not RELEASED: the request fails, and nothing changes.
  pub deputy_waits_for_release :
      (now letter_id : ℕ) (headers : Option ℕ) (w : World) (l : Letter) (v : Vault)
      → fetch_letter letter_id w.db ≡ ok l
      → fetch_vault l.vault_id w.db ≡ ok v
      → v.state ≢ released
      → IsRefused (co_steward_release_event_letter now headers letter_id w) w
  unfolding co_steward_release_event_letter
  deputy_waits_for_release now letter_id headers w l v hl h held =
      IsRefused->>= (current_co_steward now headers) _ w (current_co_steward_reads now headers w)
        λ deputy _.
          let refused =
            authorise_postmortem-IsRefused deputy.0 deputy.1 l.vault_id w v h
              (ground (arith, eq→≡ v.state released)) in
          rw hl (
            IsRefused->>= (authorise_postmortem deputy.0 deputy.1 l.vault_id) _ w refused.1
              (λ a e. ground (arith, refused.0)))
