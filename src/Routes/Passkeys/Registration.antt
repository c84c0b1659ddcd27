-- ===== src/Routes/Passkeys/Registration.antt =====
-- crates/beacon-api/src/passkey.rs: who can add a passkey to an account, and what a refused
-- registration leaves behind.
use paschal.Base.{
  ℕ, suc, String, ◌&&◌, is_none, ◌∙◌, ◌≡◌, ◌≤◌, ◌<◌, refl, Bool, true, false, Option, none, some,
  ok, err, arith, ◌==◌, ltb, str_eq, suc,
}
use text.Mathlib.TextPositions.{eq_refl}
use paschal.Base.Text.{contains}
use paschal.Db.Sql.{insert}
use paschal.Db.Sql.Lookup.{first-insert}
use paschal.Db.Tables.{Store, Principal, Session}
use paschal.Db.Accounts.{fetch_principal_by_email, upsert_principal_by_email}
use paschal.Db.Passkeys.{count_passkeys_for_principal}
use paschal.Db.Contacts.{count_zk_vaults_for_principal}
use paschal.App.World.{World, Platform, conflict, bad_request}
use paschal.App.Monad.{◌>>=◌}
use paschal.Routes.Auth.{current_principal}
use paschal.Routes.Accounts.{accepted}
use paschal.Routes.Passkeys.{
  Webauthn, start_registration, admit_registration, passkey_register_options, delete_passkey,
}

fresh_principal : ℕ → String → Principal
fresh_principal id email = record {
  id = id;
  display_name = none;
  primary_email = email;
  tos_accepted_at = none;
  deletion_requested_at = none;
  deletion_scheduled_for = none;
}

upsert-known :
    (id : ℕ) (email : String) (owner : Principal) (s : Store)
    → fetch_principal_by_email email s ≡ some owner
    → upsert_principal_by_email id email s ≡ ((owner, false), s)
unfolding upsert_principal_by_email fetch_principal_by_email
upsert-known id email owner s known = rw (known, upsert_principal_by_email) refl

upsert-new :
    (id : ℕ) (email : String) (s : Store)
    → fetch_principal_by_email email s ≡ none
    → upsert_principal_by_email id email s ≡ (
      (fresh_principal id email, true),
      record s { principals = insert (fresh_principal id email) s.principals },
    )
unfolding upsert_principal_by_email fetch_principal_by_email fresh_principal
upsert-new id email s new = rw (new, upsert_principal_by_email) refl

new_is_known :
    (id : ℕ) (email : String) (s : Store)
    → fetch_principal_by_email email s ≡ none
    → fetch_principal_by_email email
        (record s { principals = insert (fresh_principal id email) s.principals })
      ≡ some (fresh_principal id email)
unfolding fetch_principal_by_email fresh_principal
new_is_known id email s new =
    first-insert (λ p. str_eq p.primary_email email) (fresh_principal id email) s.principals new
    ∙ rw (eq_refl email) refl

module _ ⦃p : Platform⦄ where
  -- The session is open at `now`, belongs to the principal, and has the request's token.
  abbrev pub opens_account : ℕ → ℕ → Option ℕ → Session → Bool
  opens_account now pid none x = false
  opens_account now pid (some token) x =
      x.token_hash == p.hash_token token && x.principal_id == pid && is_none x.revoked_at && ltb now x.expires_at

  module _ ⦃a : Webauthn⦄ (now trial_days : ℕ) (email : String) (w : World)
      (valid : contains b'@' email ≡ true) where
    options_known :
        (headers : Option ℕ) (tos : Option Bool) (owner : Principal)
        → fetch_principal_by_email email w.db ≡ some owner
        → passkey_register_options now trial_days headers email tos w
          ≡ (admit_registration now trial_days headers tos owner false >>= λ _.
                start_registration now owner email)
              (record w { drawn = suc w.drawn })
    unfolding passkey_register_options
    options_known headers tos owner known =
        rw valid (rw (upsert-known (p.random w.drawn) email owner w.db known) refl)

    options_new :
        (headers : Option ℕ) (tos : Option Bool)
        → fetch_principal_by_email email w.db ≡ none
        → let id = p.random w.drawn in
          passkey_register_options now trial_days headers email tos w
          ≡ (admit_registration now trial_days headers tos (fresh_principal id email) true >>= λ _.
                start_registration now (fresh_principal id email) email)
              (record w {
                db = record w.db { principals = insert (fresh_principal id email) w.db.principals };
                drawn = suc w.drawn;
              })
    unfolding passkey_register_options
    options_new headers tos new = rw valid (rw (upsert-new (p.random w.drawn) email w.db new) refl)

  known_without_session :
      ⦃a : Webauthn⦄ (now trial_days : ℕ) (email : String) (owner : Principal) (w : World)
      → contains b'@' email ≡ true
      → fetch_principal_by_email email w.db ≡ some owner
      → (passkey_register_options now trial_days none email (some true) w).0 ≡ err conflict
  unfolding admit_registration current_principal
  known_without_session now trial_days email owner w valid known =
      rw (options_known now trial_days email w valid none (some true) owner known) refl

  -- A registration that is refused because the terms are not accepted has made the account all the
  -- same: the next one, with the terms accepted and no session, meets a conflict.
  pub refused_registration_keeps_account :
      ⦃a : Webauthn⦄ (now trial_days : ℕ) (email : String) (tos : Option Bool) (w : World)
      → contains b'@' email ≡ true
      → accepted tos ≡ false
      → fetch_principal_by_email email w.db ≡ none
      → let (r, w') = passkey_register_options now trial_days none email tos w in
        (r ≡ err bad_request)
        × ((passkey_register_options now trial_days none email (some true) w').0 ≡ err conflict)
  unfolding admit_registration
  refused_registration_keeps_account now trial_days email tos w valid refused new =
      let id = p.random w.drawn in
      let w₂ : World = record w {
        db = record w.db { principals = insert (fresh_principal id email) w.db.principals };
        drawn = suc w.drawn;
      } in
      rw (options_new now trial_days email w valid none tos new) (
        rw refused (
          refl,
          known_without_session now trial_days email (fresh_principal id email) w₂ valid
              (new_is_known id email w.db new),
        ))

  -- The only passkey of a principal with zero-knowledge vaults is kept.
  last_passkey_kept :
      (now id pid : ℕ) (headers : Option ℕ) (w : World)
      → current_principal now headers w ≡ (ok pid, w)
      → count_passkeys_for_principal pid w.db ≤ 1
      → 0 < count_zk_vaults_for_principal pid w.db
      → delete_passkey now headers id w ≡ (err conflict, w)
  unfolding delete_passkey
  last_passkey_kept now id pid headers w session few some_zk =
      rw session (rw (few_passkeys, has_zk) refl)
    where
      few_passkeys : ltb 1 (count_passkeys_for_principal pid w.db) ≡ false
      few_passkeys = ground (arith, few)

      has_zk : (count_zk_vaults_for_principal pid w.db == 0) ≡ false
      has_zk = ground (arith, some_zk)
