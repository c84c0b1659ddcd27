-- ===== src/Routes/Passkeys.antt =====
-- crates/beacon-api/src/passkey.rs: the ceremonies that register a passkey and sign in with one,
-- and the listing and deletion of passkeys. The library webauthn-rs with its JSON is a parameter.
pub mod Registration
pub mod SignIn
use paschal.Base.{
  ℕ, ◌*◌, String, Bool, true, false, not, ◌||◌, List, [], ◌∷◌, Option, none, some, Result, ok, err,
  map, ltb, if◌then◌else◌, is_none, length, ◌==◌,
}
use paschal.Base.Bytes.{Bytes}
use paschal.Base.Text.{contains}
use paschal.Db.Tables.{Store, Principal, Passkey}
use paschal.Db.Accounts.{fetch_principal_by_email, upsert_principal_by_email, create_session}
use paschal.Db.Contacts.{set_tos_accepted, count_zk_vaults_for_principal}
use paschal.Db.Subscriptions.{create_subscription}
use paschal.Db.Passkeys as PasskeyQueries
use paschal.Db.Passkeys.{
  create_webauthn_challenge, consume_webauthn_challenge, store_passkey, list_passkeys_for_principal,
  get_passkey_by_credential_id, get_passkeys_for_authentication, update_passkey_after_auth,
  count_passkeys_for_principal,
}
use paschal.Db.Envelopes.{upsert_principal_recovery, get_principal_recovery}
use paschal.App.World.{
  World, Platform, ApiError, bad_request, unauthorised, not_found, conflict, internal,
}
use paschal.App.Monad.{
  require, Api, ◌>>=◌, ◌>>◌, continue, pure, fail, ensure, ask, ask_result, exec, call, call_result,
  draw,
}
use paschal.Routes.Auth.{current_principal}
use paschal.Routes.Accounts.{accepted}
use paschal.Routes.Vaults.{unwrap_or}

-- webauthn-rs: the two ceremonies, and its values as JSON. A credential's id is a number, as in
-- the table.
pub record Webauthn : Type 1 where
  pub RegState : Type 0
  pub AuthState : Type 0
  pub Credential : Type 0
  pub Assertion : Type 0
  pub Key : Type 0
  pub AuthResult : Type 0
  pub start_registration : ℕ → String → Option (List ℕ) → Option (String × RegState)
  pub finish_registration : Credential → RegState → Option Key
  pub start_authentication : List Key → Option (String × AuthState)
  pub finish_authentication : Assertion → AuthState → Option AuthResult
  pub update_credential : AuthResult → Key → Key
  pub cred_id : Key → ℕ
  pub result_cred_id : AuthResult → ℕ
  pub backup_state : Key → Bool
  pub transports : Key → List String
  pub write_reg : RegState → String
  pub read_reg : String → Option RegState
  pub write_auth : AuthState → String
  pub read_auth : String → Option AuthState
  pub read_credential : String → Option Credential
  pub read_assertion : String → Option Assertion
  pub write_key : Key → String
  pub read_key : String → Option Key

-- The crates hmac and hex: HMAC-SHA256 of a text under a key, and the code's spelling.
pub record Codes : Type 0 where
  pub hmac : Bytes → Bytes → Bytes
  pub hex : Bytes → Bytes

-- `.map_err(|_| e)` on a call.
abbrev pub with_error :
    {A : Type 0} → ApiError → Result ApiError A × World → Result ApiError A × World
with_error e (ok a, w) = (ok a, w)
with_error e (err _, w) = (err e, w)

abbrev pub or_fail : {A : Type 0} → ApiError → Api A → Api A
or_fail e m w = with_error e (m w)

-- `if exclude.is_empty() { None }`
abbrev pub exclude_opt : List ℕ → Option (List ℕ)
exclude_opt [] = none
exclude_opt (c ∷ cs) = some (c ∷ cs)

-- `filter_map(…ok())` over the stored keys.
abbrev pub readable : ⦃a : Webauthn⦄ → List Passkey → List a.Key
readable [] = []
readable ⦃a⦄ (row ∷ rows) =
    let rest = readable rows in
    elim (a.read_key row.passkey_json) [ none ↦ rest | some k ↦ k ∷ rest ]

module _ ⦃p : Platform⦄ where
  -- Who may register a passkey: a new account that accepts the terms, or the account's session.
  unfoldable pub admit_registration :
      ℕ → ℕ → Option ℕ → Option Bool → Principal → Bool → Api (Unit {0})
  admit_registration now trial_days headers tos_accepted owner true = do
    ensure (accepted tos_accepted) bad_request
    exec (set_tos_accepted now owner.id)
    _ ← call (create_subscription now owner.id trial_days)
    pure tt
  admit_registration now trial_days headers tos_accepted owner false = do
    caller ← or_fail conflict (current_principal now headers)
    ensure (caller == owner.id) unauthorised

  module _ ⦃a : Webauthn⦄ where
    unfoldable pub start_registration : ℕ → Principal → String → Api (ℕ × String)
    start_registration now owner email = do
      existing ← ask (list_passkeys_for_principal owner.id)
      (options, reg_state) ←
          require internal (
            a.start_registration owner.id email (exclude_opt (map (λ k. k.credential_id) existing)))
      id ← draw
      challenge_id ←
          call (
            create_webauthn_challenge id now (some owner.id) (a.write_reg reg_state) "REGISTRATION")
      pure (challenge_id, options)

    -- The challenge's id and the options for the browser.
    unfoldable pub passkey_register_options :
        ℕ → ℕ → Option ℕ → String → Option Bool → Api (ℕ × String)
    unfolding admit_registration start_registration
    passkey_register_options now trial_days headers email tos_accepted = do
      ensure (contains b'@' email) bad_request
      id ← draw
      (owner, created) ← call (upsert_principal_by_email id email)
      admit_registration now trial_days headers tos_accepted owner created
      start_registration now owner email

    -- The code is minted for the first passkey only. Its bytes and the salt are random.
    unfoldable pub mint_recovery_code :
        ⦃c : Codes⦄ → ℕ → ℕ → Bytes → Bytes → Bool → Api (Option Bytes)
    mint_recovery_code now principal_id code_salt random false = pure none
    mint_recovery_code ⦃c⦄ now principal_id code_salt random true = do
      exec (upsert_principal_recovery now principal_id code_salt (c.hmac code_salt (c.hex random)))
      pure (some (c.hex random))

    -- The principal, the session's token, and the recovery code.
    unfoldable pub passkey_register_verify :
        ⦃c : Codes⦄ → ℕ → ℕ → String → Option String → Bytes → Bytes → Api (ℕ × ℕ × Option Bytes)
    unfolding mint_recovery_code
    passkey_register_verify now challenge_id credential name code_salt random = do
      found ← call (consume_webauthn_challenge now challenge_id "REGISTRATION")
      (state_json, principal_id_opt) ← require bad_request found
      principal_id ← require internal principal_id_opt
      reg_state ← require internal (a.read_reg state_json)
      reg_response ← require bad_request (a.read_credential credential)
      key ← require bad_request (a.finish_registration reg_response reg_state)
      known ← ask (get_passkey_by_credential_id (a.cred_id key))
      ensure (is_none known) conflict
      id ← draw
      _ ← call_result (
          store_passkey id now principal_id (a.cred_id key) (a.write_key key) (a.backup_state key)
            (a.transports key) (unwrap_or name "Passkey"))
      recovery ← ask (get_principal_recovery principal_id)
      recovery_code ← mint_recovery_code now principal_id code_salt random (is_none recovery)
      session ← draw
      exec (create_session now principal_id (p.hash_token session) 720)
      pure (principal_id, session, recovery_code)

    unfoldable pub passkey_authenticate_options : ℕ → String → Api (ℕ × String)
    passkey_authenticate_options now email = do
      found ← ask (fetch_principal_by_email email)
      owner ← require unauthorised found
      passkey_rows ← ask (get_passkeys_for_authentication owner.id)
      ensure (ltb 0 (length passkey_rows)) unauthorised
      (options, auth_state) ← require internal (a.start_authentication (readable passkey_rows))
      id ← draw
      challenge_id ← call (
          create_webauthn_challenge id now (some owner.id) (a.write_auth auth_state)
            "AUTHENTICATION")
      pure (challenge_id, options)

    unfoldable pub passkey_authenticate_verify : ℕ → ℕ → String → Api (ℕ × ℕ)
    passkey_authenticate_verify now challenge_id assertion = do
      found ← call (consume_webauthn_challenge now challenge_id "AUTHENTICATION")
      (state_json, _) ← require bad_request found
      auth_state ← require internal (a.read_auth state_json)
      auth_response ← require bad_request (a.read_assertion assertion)
      auth_result ← require bad_request (a.finish_authentication auth_response auth_state)
      row ← ask (get_passkey_by_credential_id (a.result_cred_id auth_result))
      passkey_row ← require unauthorised row
      key ← require internal (a.read_key passkey_row.passkey_json)
      exec (
          update_passkey_after_auth passkey_row.id
            (a.write_key (a.update_credential auth_result key)) now)
      session ← draw
      exec (create_session now passkey_row.principal_id (p.hash_token session) 720)
      pure (passkey_row.principal_id, session)

  unfoldable pub list_passkeys : ℕ → Option ℕ → Api (List Passkey)
  list_passkeys now headers = do
    pid ← current_principal now headers
    ask (list_passkeys_for_principal pid)

  unfoldable pub delete_passkey : ℕ → Option ℕ → ℕ → Api (Unit {0})
  delete_passkey now headers id = do
    pid ← current_principal now headers
    count ← ask (count_passkeys_for_principal pid)
    zk_count ← ask (count_zk_vaults_for_principal pid)
    ensure (ltb 1 count || (zk_count == 0)) conflict
    deleted ← call (PasskeyQueries.delete_passkey id pid)
    ensure deleted not_found
