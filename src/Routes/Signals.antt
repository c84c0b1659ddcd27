-- ===== src/Routes/Signals.antt =====
-- crates/beacon-api/src/routes.rs: the handlers of signs of life: heartbeats, signal
-- subscriptions, Apple shortcuts, the bank's webhook and the answers of buddies.
pub mod Pings
use paschal.Base.{
  ℕ, ◌-◌, ◌+◌, String, Bool, true, false, not, ◌||◌, List, [], ◌∷◌, ◌++◌, length, Option, none, some, Result, ok,
  err, ltb, ◌==◌, if◌then◌else◌, ℤ, pos, negsuc, is_none,
}
use Prim.Native.Nat.{max, min}
use Prim.Native.String.{len}
use paschal.Base.Bytes.{Bytes}
use paschal.Base.Numbers.{utf8, signed_decimal}
use paschal.Base.Float.{Float32}
use paschal.Base.Text.{is_empty, contains}
use paschal.Domain.SignalSource
use paschal.Domain.SignalSource.{
  SignalSource, heartbeat, apple_icloud_shortcut, cdr, buddy_attestation, default_weight,
}
use paschal.Domain.BuddyResponse
use paschal.Domain.BuddyResponse.{BuddyResponse, release_contribution}
use paschal.Db.Tables.{Store, Vault, SignalSubscription, BankDormancy, Buddy}
use paschal.Db.Vaults.{list_vaults, touch_attestation}
use paschal.Db.Presence as Presence
use paschal.Db.Presence.{
  record_heartbeat, record_signal, create_apple_shortcut_sub, fetch_apple_shortcut_sub,
  touch_apple_shortcut_sub, create_bank_dormancy_sub, fetch_bank_dormancy_sub,
  fetch_bank_dormancy_sub_by_webhook, touch_bank_dormancy_sub, delete_bank_dormancy_sub,
}
use paschal.Db.Deputies as Deputies
use paschal.Db.Deputies.{record_buddy_response, fetch_buddy}
use paschal.Db.Accounts.{fetch_principal}
use paschal.Crypto.{Primitives}
use paschal.Crypto.Compare.{hmac_sha256, constant_time_eq}
use paschal.App.World.{
  World, Platform, Metrics, bad_request, unauthorised, not_found, inc, buddy_invite,
}
use paschal.App.Monad.{
  require, Api, ◌>>=◌, ◌>>◌, continue, pure, ensure, ask, ask_result, exec, call, call_result,
  count, notify, for_each, draw,
}
use paschal.Routes.Auth.{current_principal}
use paschal.Routes.Vaults.{owned_vault, require_ok, unwrap_or}
use paschal.Routes.Letters.{one_of}

-- |a - b|, where b may be negative.
-- `format!("{}|{}", installation_id, timestamp)`.
unfoldable pub signed_text : String → ℤ → Bytes
signed_text installation_id timestamp = utf8 installation_id ++ b'|' ∷ utf8 (signed_decimal timestamp)

abbrev pub drift : ℕ → ℤ → ℕ
drift now (pos t) = max (now - t) (t - now)
drift now (negsuc t) = now + t + 1

-- `x.clamp(7, 365)` of an i32.
abbrev pub clamp_cadence : ℤ → ℕ
clamp_cadence (pos n) = max 7 (min n 365)
clamp_cadence (negsuc n) = 7

module _ ⦃p : Platform⦄ where
  -- An observation of a source for each vault of the principal.
  unfoldable pub observe : ℕ → SignalSource → ℕ → Vault → Api (Unit {0})
  observe now source contribution vault = do
    id ← draw
    exec λ s. (record_signal id now vault.id source contribution s).1

  unfoldable pub observe_all : ℕ → ℕ → SignalSource → ℕ → Api (Unit {0})
  unfolding observe
  observe_all now pid source contribution = do
    vaults ← ask (list_vaults pid)
    for_each vaults (observe now source contribution)

  unfoldable pub bank_dormancy_enrol : ℕ → Option ℕ → List ℕ → Api (ℕ × Option ℕ)
  bank_dormancy_enrol now headers secret = do
    pid ← current_principal now headers
    found ← ask (fetch_bank_dormancy_sub pid)
    enrolled pid found
    where
      enrolled : ℕ → Option BankDormancy → Api (ℕ × Option ℕ)
      enrolled pid (some row) = pure (row.webhook_id, row.last_webhook_at)
      enrolled pid none = do
        webhook_id ← draw
        id ← draw
        exec (create_bank_dormancy_sub id now pid webhook_id secret)
        pure (webhook_id, none)

  unfoldable pub get_bank_signal_status : ℕ → Option ℕ → Api (ℕ × Option ℕ)
  get_bank_signal_status now headers = do
    pid ← current_principal now headers
    found ← ask (fetch_bank_dormancy_sub pid)
    row ← require not_found found
    pure (row.webhook_id, row.last_webhook_at)

  unfoldable pub revoke_bank_signal : ℕ → Option ℕ → Api (Unit {0})
  revoke_bank_signal now headers = do
    pid ← current_principal now headers
    exec (delete_bank_dormancy_sub pid)

  unfoldable pub apple_icloud_enrol : ℕ → Option ℕ → String → List ℕ → Api (Unit {0})
  apple_icloud_enrol now headers installation_id secret = do
    pid ← current_principal now headers
    ensure (not (is_empty installation_id || ltb 128 (length (utf8 installation_id)))) bad_request
    call_result (create_apple_shortcut_sub pid installation_id secret)

  unfoldable pub invite_buddy : ℕ → Option ℕ → String → Option ℤ → Api (Buddy × ℕ)
  invite_buddy now headers email cadence = do
    pid ← current_principal now headers
    ensure (contains b'@' email) bad_request
    token ← draw
    id ← draw
    buddy ← call_result (
        Deputies.invite_buddy id pid email (p.hash_token token)
          (clamp_cadence (unwrap_or cadence (pos 90))))
    owner ← ask_result (fetch_principal pid)
    notify buddy_invite email
    pure (buddy, token)

  unfoldable pub revoke_buddy : ℕ → Option ℕ → ℕ → Api (Unit {0})
  revoke_buddy now headers buddy_id = do
    pid ← current_principal now headers
    buddy ← ask_result (fetch_buddy buddy_id)
    ensure (buddy.principal_id == pid) not_found
    exec (Deputies.revoke_buddy now buddy.id)

  unfoldable pub confirm_buddy : ℕ → ℕ → Api Buddy
  confirm_buddy now token = do
    found ← call (Deputies.confirm_buddy now (p.hash_token token))
    require not_found found

  module _ ⦃f : Float32⦄ where
    abbrev pub f32_bits : ℕ → ℕ
    f32_bits hundredths = f.to_bits (f.hundredths hundredths)

    unfoldable pub post_heartbeat : ℕ → Option ℕ → Option String → Api ℕ
    unfolding observe_all
    post_heartbeat now headers body_via = do
      pid ← current_principal now headers
      ensure
          (one_of ("CLI" ∷ "WEB" ∷ "EMAIL" ∷ "SMS" ∷ "PUSH" ∷ [])
            (p.to_uppercase (unwrap_or body_via "CLI")))
          bad_request
      ts ← call (record_heartbeat now pid (p.to_uppercase (unwrap_or body_via "CLI")))
      count (λ m. record m { heartbeats_total = inc m.heartbeats_total })
      observe_all now pid heartbeat (f32_bits 0)
      pure ts

    unfoldable pub upsert_signal_subscription :
        ℕ → Option ℕ → ℕ → String → Option ℕ → Option Bool → Api (Option SignalSubscription)
    unfolding owned_vault
    upsert_signal_subscription now headers vault_id body_source weight enabled = do
      (pid, vault) ← owned_vault now headers vault_id
      source ← require_ok bad_request (SignalSource.from_db_str (p.to_uppercase body_source))
      id ← draw
      call (
          Presence.upsert_signal_subscription id vault.id source
            (unwrap_or weight (f32_bits (default_weight source))) (unwrap_or enabled true))

    unfoldable pub bank_dormancy_webhook : ℕ → ℕ → Api (Unit {0})
    unfolding observe_all
    bank_dormancy_webhook now webhook_id = do
      found ← ask (fetch_bank_dormancy_sub_by_webhook webhook_id)
      row ← require not_found found
      exec (touch_bank_dormancy_sub now webhook_id)
      observe_all now row.principal_id cdr (f32_bits 0)

    -- What the answer of a buddy does to the vaults of the principal.
    unfoldable pub act_on_response : ℕ → ℕ → BuddyResponse → Api (Unit {0})
    unfolding observe_all
    act_on_response now pid response =
        if ltb 0 (release_contribution response)
        then observe_all now pid buddy_attestation (f32_bits (release_contribution response))
        else exec (touch_attestation now pid)

    unfoldable pub respond_buddy : ℕ → ℕ → String → Api Buddy
    unfolding act_on_response
    respond_buddy now buddy_id body_response = do
      response ← require_ok bad_request (BuddyResponse.from_db_str (p.to_uppercase body_response))
      buddy ← call_result (record_buddy_response now buddy_id response)
      count (λ m. record m { buddy_responses_total = inc m.buddy_responses_total })
      act_on_response now buddy.principal_id response
      pure buddy

    -- The message that is signed is `{installation_id}|{timestamp}`, whose bytes are given, and the
    -- signature is given after its decoding from base64, none where this fails.
    unfoldable pub apple_icloud_ping :
        ⦃c : Primitives⦄ → ℕ → String → ℤ → Option Bytes → Api (Unit {0})
    unfolding observe_all
    apple_icloud_ping now installation_id timestamp signature = do
      ensure (not (ltb 300 (drift now timestamp))) bad_request
      found ← ask (fetch_apple_shortcut_sub installation_id)
      (principal_id, secret) ← require not_found found
      provided ← require bad_request signature
      ensure (constant_time_eq provided (hmac_sha256 secret (signed_text installation_id timestamp))) unauthorised
      exec (touch_apple_shortcut_sub now installation_id)
      count (λ m. record m { apple_pings_total = inc m.apple_pings_total })
      observe_all now principal_id apple_icloud_shortcut (f32_bits 0)
