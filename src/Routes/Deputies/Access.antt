-- ===== src/Routes/Deputies/Access.antt =====
-- crates/beacon-api/src/routes.rs: how a Co-Steward is invited, listed, revoked, confirmed and
-- signed in, and the dashboard.
use paschal.Base.{ℕ, String, not, List, [], ◌∷◌, Option, none, some, ltb, length, ◌==◌}
use Prim.Native.String.{len}
use paschal.Base.Text.{contains}
use paschal.Domain.Plans.{self_hosted, plan_features}
use paschal.Db.Sql.{select}
use paschal.Db.Tables.{Store, Vault, Subscription, CoSteward, buddy_is_active}
use paschal.Db.Vaults.{list_vaults}
use paschal.Db.Letters.{letter_count}
use paschal.Db.Accounts.{fetch_principal, create_co_steward_session}
use paschal.Db.Subscriptions.{fetch_subscription}
use paschal.Db.Releases.{append_transparency_entry}
use paschal.Db.Deputies as Deputies
use paschal.Db.Deputies.{
  co_steward_count, fetch_co_steward, lookup_co_steward_salt, touch_co_steward_view, list_buddies,
}
use paschal.App.World.{Platform, bad_request, unauthorised, not_found, forbidden, co_steward_invite}
use paschal.App.Monad.{
  Api, ◌>>=◌, ◌>>◌, pure, ensure, require, ask, ask_result, exec, call, notify, draw,
}
use paschal.Routes.Auth.{current_principal, current_co_steward}
use paschal.Routes.Vaults.{as_u32}

pub record CoStewardDashboardView : Type 0 where
  pub principal_email : String
  pub subscription : Subscription
  pub vaults : List Vault
  pub buddy_count : ℕ
  pub letter_counts : List (ℕ × ℕ)

-- The loop over the vaults.
unfoldable pub letter_counts_of : List Vault → Store → List (ℕ × ℕ)
letter_counts_of [] s = []
letter_counts_of (v ∷ vaults) s = (v.id, letter_count v.id s) ∷ letter_counts_of vaults s

module _ ⦃p : Platform⦄ where
  -- The token of the invitation.
  unfoldable pub invite_co_steward : ℕ → Option ℕ → String → Api ℕ
  invite_co_steward now headers email = do
    pid ← current_principal now headers
    ensure (contains b'@' email) bad_request
    sub ← ask_result (fetch_subscription pid)
    ensure (ltb 0 (plan_features self_hosted).max_co_stewards) forbidden
    current ← ask (co_steward_count pid)
    ensure (ltb (as_u32 current) (plan_features self_hosted).max_co_stewards) forbidden
    token ← draw
    id ← draw
    exec (Deputies.invite_co_steward id pid email (p.hash_token token))
    owner ← ask_result (fetch_principal pid)
    notify co_steward_invite email
    exec (append_transparency_entry "CO_STEWARD_INVITED" (some pid) none)
    pure token

  unfoldable pub list_co_stewards : ℕ → Option ℕ → Api (List CoSteward)
  list_co_stewards now headers = do
    pid ← current_principal now headers
    ask (Deputies.list_co_stewards pid)

  unfoldable pub revoke_co_steward : ℕ → Option ℕ → ℕ → Api (Unit {0})
  revoke_co_steward now headers co_steward_id = do
    pid ← current_principal now headers
    co ← ask_result (fetch_co_steward co_steward_id)
    ensure (co.principal_id == pid) not_found
    exec (Deputies.revoke_co_steward now co.id)
    exec (append_transparency_entry "CO_STEWARD_REVOKED" (some pid) none)

  -- The session that a confirmation and a sign-in end with: the Co-Steward's id and the token.
  unfoldable pub open_session : ℕ → CoSteward → Api ℕ
  open_session now co = do
    session ← draw
    exec (create_co_steward_session now co.id co.principal_id (p.hash_token session) 24)
    pure session

  unfoldable pub confirm_co_steward : ℕ → ℕ → String → Api (ℕ × ℕ)
  unfolding open_session
  confirm_co_steward now token passphrase = do
    ensure (not (ltb (len passphrase) 10)) bad_request
    salt ← draw
    found ← call (
        Deputies.confirm_co_steward now (p.hash_token token) (p.hash_passphrase passphrase salt)
          salt)
    co ← require bad_request found
    session ← open_session now co
    exec (append_transparency_entry "CO_STEWARD_CONFIRMED" (some co.principal_id) none)
    pure (co.id, session)

  unfoldable pub sign_in_co_steward : ℕ → String → String → Api (ℕ × ℕ)
  unfolding open_session
  sign_in_co_steward now email passphrase = do
    stored ← ask (lookup_co_steward_salt email)
    salt ← require unauthorised stored
    found ← ask (Deputies.sign_in_co_steward email (p.hash_passphrase passphrase salt))
    co ← require unauthorised found
    session ← open_session now co
    pure (co.id, session)

  unfoldable pub co_steward_dashboard : ℕ → Option ℕ → Api CoStewardDashboardView
  unfolding letter_counts_of
  co_steward_dashboard now headers = do
    (co_id, pid) ← current_co_steward now headers
    exec (touch_co_steward_view now co_id)
    owner ← ask_result (fetch_principal pid)
    sub ← ask_result (fetch_subscription pid)
    vaults ← ask (list_vaults pid)
    buddies ← ask (list_buddies pid)
    letter_counts ← ask (letter_counts_of vaults)
    pure (record {
      principal_email = owner.primary_email;
      subscription = sub;
      vaults = vaults;
      buddy_count = length (select buddy_is_active buddies);
      letter_counts = letter_counts;
    })
