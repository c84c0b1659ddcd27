-- ===== src/Tests/AccessRuns.antt =====
-- Runs of the ceremonies of passkeys, of recovery, and of the handlers of deputies.
use paschal.Base.{
  ℕ, String, ◌≡◌, refl, true, false, [], ◌∷◌, ◌++◌, ◌+◌, List, none, some, ok, err, pos, max_zero,
}
use Prim.Native.String.{len}
use paschal.Base.Bytes.{Bytes}
use paschal.Domain.Tier
use paschal.Domain.VaultState.{active, released}
use paschal.Domain.ReleaseMode.{event_on_demand}
use paschal.Db.Sql.{insert, first}
use paschal.Db.Tables.{Store, Session, CoSteward, Letter, RecipientChange, principal, co_steward}
use paschal.Db.Tables.Keys as Rows
use paschal.Db.Tables.Keys.{Passkey, WebauthnChallenge, RecoveryKey}
use paschal.Db.Accounts.{fetch_principal_by_email, co_steward_for_session}
use paschal.Db.Letters.{fetch_letter}
use paschal.Db.Envelopes.{get_principal_recovery_by_email, get_principal_recovery_key_by_email}
use paschal.App.World.{World, Message, bad_request, conflict, recipient_change_requested}
use paschal.Routes.Auth.{current_co_steward}
use paschal.Routes.Passkeys.{Webauthn, Codes, passkey_register_options, passkey_authenticate_verify}
use paschal.Routes.Passkeys.Registration.{refused_registration_keeps_account}
use paschal.Routes.Recovery.{recovery_redeem}
use paschal.Routes.Recovery.Redeem.{redeemed_with_code}
use paschal.Routes.Deputies.Redirect.{co_steward_update_recipient}
use paschal.Routes.Deputies.Redirect.Hold.{MayAdminister, IsAhead, redirection_is_held}
use paschal.Tests.Fixtures.{counter, estate, world_with, vault_in}

-- A library that keeps every value as its text, and that accepts every answer; the credential is 77.
abbrev echo : Webauthn
echo = record {
  RegState = String;
  AuthState = String;
  Credential = String;
  Assertion = String;
  Key = String;
  AuthResult = String;
  start_registration = λ id email exclude. some ("options", "state");
  finish_registration = λ credential state. some credential;
  start_authentication = λ keys. some ("options", "state");
  finish_authentication = λ assertion state. some assertion;
  update_credential = λ result key. key;
  cred_id = λ key. 77;
  result_cred_id = λ result. 77;
  backup_state = λ key. true;
  transports = λ key. [];
  write_reg = λ s. s;
  read_reg = some;
  write_auth = λ s. s;
  read_auth = some;
  read_credential = some;
  read_assertion = some;
  write_key = λ s. s;
  read_key = some;
}

abbrev salted : Codes
salted = record { hmac = λ salt code. salt ++ code; hex = λ bytes. bytes }

abbrev only_passkey : Passkey
only_passkey = record {
  id = 60;
  principal_id = 7;
  credential_id = 77;
  passkey_json = "key";
  backed_up = false;
  transports = [];
  name = "Passkey";
  created_at = 1;
  last_used_at = none;
}

abbrev session_of_owner : Session
session_of_owner = record {
  token_hash = 6;
  principal_id = 7;
  co_steward_id = none;
  auth_role = principal;
  expires_at = 90000;
  revoked_at = none;
}

abbrev challenge : WebauthnChallenge
challenge = record {
  id = 40;
  principal_id = some 7;
  state_json = "state";
  ceremony = "AUTHENTICATION";
  expires_at = 900;
}

abbrev code_salt : Bytes
code_salt = 1 ∷ 2 ∷ []

abbrev code : Bytes
code = 8 ∷ 9 ∷ []

abbrev verifier : Bytes
verifier = 1 ∷ 2 ∷ 8 ∷ 9 ∷ []

abbrev wrap : Bytes
wrap = 4 ∷ 4 ∷ []

abbrev stored_code : Rows.Recovery
stored_code = record {
  principal_id = 7;
  code_salt = code_salt;
  code_verifier = verifier;
  created_at = 2;
}

abbrev stored_key : RecoveryKey
stored_key = record {
  principal_id = 7;
  code_salt = code_salt;
  prk_code_ct = wrap;
  prk_code_nonce = wrap;
  prk_prf_ct = wrap;
  prk_prf_nonce = wrap;
}

-- The owner, signed in with the token 3, has a zero-knowledge vault, a passkey and a recovery code.
abbrev private_home : World
private_home = world_with (record (estate active) {
  vaults = record (vault_in active) { tier = Tier.zero_knowledge } ∷ [];
  sessions = session_of_owner ∷ [];
  passkeys = only_passkey ∷ [];
  webauthn_challenges = challenge ∷ [];
  recoveries = stored_code ∷ [];
  recovery_keys = stored_key ∷ [];
})

refused_registration_keeps_account_example :
    let (r, w') =
      passkey_register_options ⦃p = counter⦄ ⦃a = echo⦄ 100 14 none "new@example.org" none
        private_home in
    (r ≡ err bad_request)
    × ((passkey_register_options ⦃p = counter⦄ ⦃a = echo⦄ 100 14 none "new@example.org"
          (some true)
          w').0
        ≡ err conflict)
unfolding fetch_principal_by_email first
refused_registration_keeps_account_example =
    refused_registration_keeps_account ⦃p = counter⦄ ⦃a = echo⦄ 100 14 "new@example.org" none
      private_home refl refl refl

abbrev signed_in_with_passkey : World
signed_in_with_passkey =
    (passkey_authenticate_verify ⦃p = counter⦄ ⦃a = echo⦄ 100 40 "assertion" private_home).1

redeemed_with_code_example :
    (pid : ℕ) × (recovery : Rows.Recovery) × (prk : RecoveryKey) × (get_principal_recovery_by_email
        "ada@example.org" private_home.db
      ≡ some (pid, recovery))
    × (recovery.code_salt ++ code ≡ recovery.code_verifier)
    × (get_principal_recovery_key_by_email "ada@example.org" private_home.db ≡ some prk)
    × (code_salt ≡ prk.code_salt)
    × (wrap ≡ prk.prk_code_ct)
    × (wrap ≡ prk.prk_code_nonce)
    × (private_home ≡ private_home)
unfolding recovery_redeem get_principal_recovery_by_email first get_principal_recovery_key_by_email
    paschal.Db.Vaults.list_vaults paschal.Db.Sql.order_by paschal.Db.Sql.select
    paschal.Db.Envelopes.get_vault_prk_envelope
redeemed_with_code_example =
    redeemed_with_code ⦃c = salted⦄ "ada@example.org" code private_home private_home
      (record { code_salt = code_salt; prk_code_ct = wrap; prk_code_nonce = wrap; vaults = [] })
      refl

-- A deputy, signed in with the token 4, of a released vault with an event letter.
abbrev deputy_home : World
deputy_home = world_with (record (estate released) {
  sessions =
      record session_of_owner { token_hash = 8; co_steward_id = some 90; auth_role = co_steward }
      ∷ [];
  co_stewards =
      record {
        id = 90;
        principal_id = 7;
        email = "eve@example.org";
        confirmation_token_hash = none;
        passphrase_hash = some 1;
        passphrase_salt = some 1;
        confirmed_at = some 5;
        revoked_at = none;
        last_viewed_at = none;
      }
      ∷ [];
})

abbrev redirected : World
redirected =
    (co_steward_update_recipient ⦃p = counter⦄ 100 (pos 60) len (some 4) 12 "carol@example.org"
      deputy_home).1

abbrev accepted_change : RecipientChange
accepted_change = record {
        id = 500;
        letter_id = 12;
        co_steward_id = 90;
        old_email = "bob@example.org";
        new_email = "carol@example.org";
        requested_at = 100;
        effective_at = 160;
        applied_at = none;
        cancelled_at = none;
      }

redirection_is_held_example :
    (deputy : ℕ × ℕ) × (letter : Letter) × ((current_co_steward ⦃p = counter⦄ 100
        (some 4)
        deputy_home).0
      ≡ ok deputy)
    × (fetch_letter 12 deputy_home.db ≡ ok letter)
    × MayAdminister deputy.0 deputy.1 letter.vault_id deputy_home.db
    × IsAhead 100 letter
    × (redirected.db.recipient_changes ≡ insert accepted_change deputy_home.db.recipient_changes)
    × (redirected.db.letters ≡ deputy_home.db.letters)
    × (accepted_change.applied_at ≡ none)
    × ("bob@example.org" ≡ letter.recipient_email)
    × (160 ≡ 100 + max_zero (pos 60))
    × (front : List Message) × (redirected.outbox
        ≡ front
          ++ record { template = recipient_change_requested; to = letter.recipient_email } ∷ [])
unfolding co_steward_update_recipient current_co_steward co_steward_for_session first fetch_letter
    paschal.Db.Deputies.fetch_co_steward paschal.Db.Tables.co_steward_is_active
    paschal.Db.Vaults.fetch_vault paschal.Domain.VaultState.eq paschal.Domain.ReleaseMode.eq
    paschal.Db.Changes.request_recipient_change
redirection_is_held_example =
    redirection_is_held ⦃p = counter⦄ 100 (pos 60) len (some 4) 12 "carol@example.org" deputy_home
      redirected
      accepted_change
      refl
