-- ===== src/Tests/HandlerRuns.antt =====
-- Runs of the handlers of vaults, letters, sign-up and pings.
use paschal.Base.{ℕ, ◌≡◌, refl, ap, str_eq, false, [], ◌∷◌, ◌++◌, none, some, ok, pos, arith}
use paschal.Base.Bytes.{bytes_of, Bytes}
use paschal.Domain.VaultState
use paschal.Domain.VaultState.{active, released}
use paschal.Domain.ReleaseMode.{signal_or_scheduled}
use paschal.Crypto.{Primitives}
use paschal.Crypto.Compare.{hmac_sha256}
use paschal.Db.Sql.{first, update, affected}
use paschal.Db.Tables.{Store, Vault, Letter, principal}
use paschal.Db.Passkeys.{consume_webauthn_challenge}
use paschal.Db.Passkeys.Ceremonies.{challenge_single_use}
use paschal.Db.Vaults.{fetch_vault}
use paschal.Routes.Auth.{current_principal}
use paschal.App.World.{World}
use paschal.Routes.Letters.{
  Kms, list_letters, get_letter, update_letter, seal_letter, claim_release, opened,
}
use paschal.Routes.Letters.Claiming.{claim_opens_sealed_body}
use paschal.Routes.Letters.Limits.{MaySeal, sealed_letter_is_valid}
use paschal.Routes.Signals.{upsert_signal_subscription}
use paschal.Db.Releases.{consume_release_claim}
use paschal.Routes.Ownership.{Request}
use paschal.Routes.Letters.Keys.{operator_kms}
use paschal.Tests.Fixtures.{
  plain_cipher-Decrypts, counter, estate, world_with, vault_in, letter_as, plain_cipher, twelve,
  mirror,
}

-- The owner is signed in with the token 3; the claim with the token 5 is for the letter 10.
abbrev home : Store
home = record (estate active) {
  sessions =
      record {
        token_hash = 6;
        principal_id = 7;
        co_steward_id = none;
        auth_role = principal;
        expires_at = 90000;
        revoked_at = none;
      }
      ∷ [];
  letters = record (letter_as 10 signal_or_scheduled none) { nonce = twelve } ∷ [];
}

abbrev renamed : Vault
renamed = record (vault_in active) { name = "Home"; cooling_off_seconds = pos 7200 }

abbrev hello : Letter
hello = record {
  id = 501;
  vault_id = 1;
  kind = "MESSAGE";
  title = "Hello";
  recipient_email = "bob@example.org";
  ciphertext = 1 ∷ [];
  nonce = twelve;
  drill_ciphertext = none;
  drill_nonce = none;
  scheduled_release_at = some 200;
  release_mode = signal_or_scheduled;
  event_released_at = none;
  sealed_at = 100;
}

sealed_letter_is_valid_example :
    (who : ℕ × Vault)
    × ((current_principal ⦃p = counter⦄ 100 (some 3) (world_with home)).0 ≡ ok who.0)
    × (fetch_vault 1 home ≡ ok who.1)
    × (who.1.principal_id ≡ who.0)
    × MaySeal 100 who.1 (some 200) none none
unfolding seal_letter paschal.Routes.Auth.current_principal
    paschal.Db.Accounts.principal_for_session first paschal.Db.Vaults.fetch_vault
    paschal.Routes.Letters.validate_letter_kind paschal.Routes.Letters.validate_release_mode
    paschal.Db.Subscriptions.fetch_subscription paschal.Domain.SubscriptionState.allows_authoring
    VaultState.eq paschal.Db.Letters.letter_count paschal.Db.Sql.select
    paschal.Domain.Plans.plan_features paschal.Routes.Letters.within_horizon
    paschal.Db.Letters.seal_letter
sealed_letter_is_valid_example =
    sealed_letter_is_valid ⦃p = counter⦄ ⦃k = mirror⦄ 100 (some 3) 1 "Hello" "bob@example.org"
      (1 ∷ []) none (some 200) none none (world_with home)
      (seal_letter ⦃p = counter⦄ ⦃k = mirror⦄ 100 (some 3) 1 "Hello" "bob@example.org" (1 ∷ []) none
        (some 200) none none (world_with home)).1
      hello refl

-- The principal 7 asks for the vault 2 of the principal 8.
abbrev stranger : Vault
stranger = record (vault_in active) { id = 2; principal_id = 8 }

abbrev others : World
others = world_with (record home { vaults = stranger ∷ [] })

abbrev asked : Request
asked = record {
  letter_id = 10;
  contact_id = 20;
  passkey_id = 30;
  max_upload = 1000;
  title = "Hello";
  email = "bob@example.org";
  source = "CDR";
  body = 1 ∷ [];
  drill_body = none;
  seconds = none;
  birthday = none;
  note = some "later";
  scheduled = some 200;
  kind = none;
  mode = none;
  weight = none;
  enabled = some false;
  multipart = [];
  private_letter = record {
    title = "Hello";
    recipient_email = "bob@example.org";
    ciphertext = some twelve;
    nonce = some twelve;
    scheduled_release_at = none;
    kind = none;
    release_mode = none;
    heir = record {
      ciphertext = none;
      nonce = none;
      mode = none;
      salt = none;
      release_secret = none;
      recipient_share = none;
    };
  };
  ciphertext = some twelve;
  nonce = some twelve;
  recovery_ciphertext = none;
  recovery_nonce = none;
  recovery_salt = none;
}

-- The operator's key, and a letter sealed under it.
abbrev operator_key : Bytes
operator_key = twelve ++ twelve ++ (1 ∷ 2 ∷ 3 ∷ 4 ∷ 5 ∷ 6 ∷ 7 ∷ 8 ∷ [])

abbrev sealed_hello : Letter
sealed_hello = record hello { id = 501; ciphertext = twelve ++ 1 ∷ [] }

abbrev after_sealing : World
after_sealing =
    (seal_letter ⦃p = counter⦄ ⦃k = operator_kms ⦃c = plain_cipher⦄ (λ n. twelve) operator_key⦄ 100 (some 3) 1 "Hello"
      "bob@example.org" (1 ∷ []) none (some 200) none none (world_with home)).1

-- Its claim, with the token 5.
abbrev to_claim : World
to_claim = record after_sealing {
  db = record after_sealing.db {
    release_claims =
        record {
          token_hash = 10;
          release_event_id = 40;
          letter_id = 501;
          recipient_email = "bob@example.org";
          expires_at = 9000;
          claimed_at = none;
        }
        ∷ [];
  };
}

claim_opens_sealed_body_example :
    claim_release ⦃p = counter⦄ ⦃k = operator_kms ⦃c = plain_cipher⦄ (λ n. twelve) operator_key⦄ 200 5 to_claim
    ≡ (
      ok (opened "Hello" "bob@example.org" (1 ∷ []) false),
      record to_claim { db = (consume_release_claim 200 10 to_claim.db).1 },
    )
unfolding seal_letter paschal.Routes.Auth.current_principal
    paschal.Db.Accounts.principal_for_session first paschal.Db.Vaults.fetch_vault
    paschal.Routes.Letters.validate_letter_kind paschal.Routes.Letters.validate_release_mode
    paschal.Db.Subscriptions.fetch_subscription paschal.Domain.SubscriptionState.allows_authoring
    VaultState.eq paschal.Db.Letters.letter_count paschal.Db.Sql.select
    paschal.Domain.Plans.plan_features paschal.Routes.Letters.within_horizon
    paschal.Db.Letters.seal_letter
    operator_kms paschal.Crypto.seal paschal.Crypto.data_key consume_release_claim paschal.Db.Letters.fetch_letter paschal.Db.Releases.append_transparency_entry
    paschal.Db.Sql.insert
claim_opens_sealed_body_example =
    claim_opens_sealed_body ⦃p = counter⦄ ⦃c = plain_cipher⦄ (λ n. twelve) operator_key plain_cipher-Decrypts refl (λ n. refl)
      100 (some 3) 1 "Hello" "bob@example.org" (1 ∷ []) none (some 200) none none (world_with home) after_sealing sealed_hello
      refl 200 5 "bob@example.org" to_claim (consume_release_claim 200 10 to_claim.db).1 sealed_hello (vault_in active)
      refl refl refl refl refl refl

-- A claim with the token 5.
abbrev claimable : World
claimable = world_with (record home {
  release_claims =
      record {
        token_hash = 10;
        release_event_id = 40;
        letter_id = 10;
        recipient_email = "bob@example.org";
        expires_at = 9000;
        claimed_at = none;
      }
      ∷ [];
})

abbrev ten : Letter
ten = record (letter_as 10 signal_or_scheduled none) { nonce = twelve }

-- The installation "phone" with the secret 1.
abbrev shortcut : World
shortcut = world_with (record home {
  apple_shortcut_subs =
      record {
        principal_id = 7;
        installation_id = "phone";
        secret_hmac_key = 1 ∷ [];
        last_ping_at = none;
      }
      ∷ [];
})

-- The HMAC of "phone|300".
abbrev ping_signature : Bytes
ping_signature = hmac_sha256 ⦃c = plain_cipher⦄ (1 ∷ []) (bytes_of "phone|300")

abbrev challenged : Store
challenged = record home {
  webauthn_challenges =
      record {
        id = 90;
        principal_id = some 7;
        state_json = "{}";
        ceremony = "registration";
        expires_at = 500;
      }
      ∷ [];
}

challenge_single_use_example :
    let s' = (consume_webauthn_challenge 100 90 "registration" challenged).1 in
    ((consume_webauthn_challenge 200 90 "registration" s').0 ≡ none)
    × ((consume_webauthn_challenge 200 90 "authentication" s').0
        ≡ (consume_webauthn_challenge 200 90 "authentication" challenged).0)
challenge_single_use_example =
    challenge_single_use 100 200 90 "registration" "authentication" challenged (omega arith)
      (λ e. ground (arith, ap (str_eq "authentication") e))
