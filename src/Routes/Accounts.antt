-- ===== src/Routes/Accounts.antt =====
-- crates/beacon-api/src/routes.rs: sign-up, sign-in by mail, and the deletion of an account.
pub mod Signup
use paschal.Base.{ℕ, String, Bool, true, false, Option, none, some, Result, ok, err, if◌then◌else◌}
use paschal.Base.Text.{contains}
use paschal.Db.Tables
use paschal.Db.Tables.{Store, Principal, Subscription, DbError}
use paschal.Db.Accounts as AccountQueries
use paschal.Db.Accounts.{
  fetch_principal, fetch_principal_by_email, upsert_principal_by_email, create_magic_link,
  create_session,
}
use paschal.Db.Contacts.{set_tos_accepted}
use paschal.Db.Subscriptions.{fetch_subscription, create_subscription}
use paschal.Db.Releases.{append_transparency_entry}
use paschal.App.World.{
  World, Platform, Metrics, bad_request, conflict, internal, inc, magic_link, welcome,
  account_deletion_requested,
}
use paschal.App.Monad.{
  require, Api, ◌>>=◌, ◌>>◌, continue, pure, fail, ensure, ask, ask_result, exec, call, call_result,
  api_error, count, notify, draw,
}
use paschal.Routes.Auth.{current_principal}

-- `body.tos_accepted != Some(true)`
abbrev pub accepted : Option Bool → Bool
accepted none = false
accepted (some b) = b

module _ ⦃p : Platform⦄ where
  -- A link to sign in, sent to the address on record.
  unfoldable pub send_magic_link : ℕ → Principal → Api ℕ
  send_magic_link now owner = do
    magic ← draw
    exec (create_magic_link now owner.id (p.hash_token magic) 15)
    notify magic_link owner.primary_email
    pure magic

  -- The account exists: a link for the owner, and a conflict for the caller.
  unfoldable pub signup_existing : {A : Type 0} → ℕ → Principal → Api A
  unfolding send_magic_link
  signup_existing now owner = do _ ← send_magic_link now owner; fail conflict

  abbrev pub subscription_or_new : ℕ → ℕ → ℕ → Result DbError Subscription → Api Subscription
  subscription_or_new now trial_days pid (ok sub) = pure sub
  subscription_or_new now trial_days pid (err Tables.not_found) =
      call (create_subscription now pid trial_days)
  subscription_or_new now trial_days pid (err e) = fail (api_error e)

  abbrev pub greet : Option ℕ → Principal → Api (Unit {0})
  greet none owner = pure tt
  greet (some end) owner = notify welcome owner.primary_email

  -- The new account: its subscription, a link, a session.
  unfoldable pub signup_new : ℕ → ℕ → Principal → Api (ℕ × ℕ)
  signup_new now trial_days owner = do
    exec (set_tos_accepted now owner.id)
    found ← ask (fetch_subscription owner.id)
    sub ← subscription_or_new now trial_days owner.id found
    magic ← draw
    exec (create_magic_link now owner.id (p.hash_token magic) 15)
    session ← draw
    exec (create_session now owner.id (p.hash_token session) 24)
    exec (append_transparency_entry "PRINCIPAL_SIGNED_UP" (some owner.id) none)
    greet sub.trial_end_at owner
    count (λ m. record m { signups_total = inc m.signups_total })
    pure (owner.id, session)

  -- The principal and the session's token.
  unfoldable pub signup : ℕ → ℕ → String → Option Bool → Api (ℕ × ℕ)
  unfolding signup_existing signup_new
  signup now trial_days email tos_accepted = do
    ensure (contains b'@' email) bad_request
    ensure (accepted tos_accepted) bad_request
    id ← draw
    (owner, created) ← call (upsert_principal_by_email id email)
    if created then signup_new now trial_days owner else signup_existing now owner

  abbrev pub link_if_known : ℕ → Option Principal → Api (Unit {0})
  link_if_known now none = pure tt
  link_if_known now (some owner) = do _ ← send_magic_link now owner; pure tt

  -- The answer is "sent" in each case.
  unfoldable pub signin : ℕ → String → Api String
  unfolding send_magic_link
  signin now email = do
    ensure (contains b'@' email) bad_request
    found ← ask (fetch_principal_by_email email)
    link_if_known now found
    pure "sent"

  unfoldable pub request_account_deletion : ℕ → Option ℕ → Api ℕ
  request_account_deletion now headers = do
    pid ← current_principal now headers
    stored ← call_result (AccountQueries.request_account_deletion now pid 30)
    scheduled ← require internal stored
    exec (append_transparency_entry "ACCOUNT_DELETION_REQUESTED" (some pid) none)
    owner ← ask_result (fetch_principal pid)
    notify account_deletion_requested owner.primary_email
    pure scheduled

  unfoldable pub cancel_account_deletion : ℕ → Option ℕ → Api (Unit {0})
  cancel_account_deletion now headers = do
    pid ← current_principal now headers
    call_result (AccountQueries.cancel_account_deletion now pid)
    exec (append_transparency_entry "ACCOUNT_DELETION_CANCELLED" (some pid) none)
