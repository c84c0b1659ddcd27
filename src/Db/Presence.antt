-- ===== src/Db/Presence.antt =====
-- crates/beacon-db/src/lib.rs: the queries on heartbeats, signals and their subscriptions, Apple
-- shortcuts and bank webhooks.
pub mod Alive
use paschal.Base.{
  ℕ, String, Bool, ◌&&◌, List, [], ◌∷◌, Option, none, some, Result, ok, err, leb, map, ◌==◌, str_eq,
  any, after,
}
use mathlib.Core.Option
use paschal.Domain.SignalSource
use paschal.Domain.SignalSource.{SignalSource}
use paschal.Db.Sql.{select, update, delete, first, insert, upsert, latest, order_by_desc, limit}
use paschal.Db.Tables.{
  Store, Vault, Heartbeat, SignalSubscription, Signal, AppleShortcutSub, BankDormancy, DbError,
  unique_violation,
}

-- The heartbeat, and the attestation of all vaults of the principal.
unfoldable pub record_heartbeat : ℕ → ℕ → String → Store → ℕ × Store
record_heartbeat now principal_id via s = (
  now,
  record s {
    heartbeats = insert row s.heartbeats;
    vaults =
        update (λ v. v.principal_id == principal_id) (λ v. record v { last_attestation_at = now })
          s.vaults;
  },
)
  where
    row : Heartbeat
    row = record { principal_id = principal_id; via = via; received_at = now }

unfoldable pub last_heartbeat : ℕ → Store → Option ℕ
last_heartbeat principal_id s =
    Option.map (λ h. h.received_at)
      (latest (λ h. h.received_at) (select (λ h. h.principal_id == principal_id) s.heartbeats))

abbrev pub same_source : ℕ → SignalSource → SignalSubscription → Bool
same_source vault_id source x =
    x.vault_id == vault_id
    && str_eq (SignalSource.as_db_str x.source) (SignalSource.as_db_str source)

unfoldable pub upsert_signal_subscription :
    ℕ → ℕ → SignalSource → ℕ → Bool → Store → Option SignalSubscription × Store
upsert_signal_subscription new_id vault_id source weight enabled s =
    let rows =
      upsert (same_source vault_id source) (λ x. record x { weight = weight; enabled = enabled })
        row s.signal_subscriptions in
    (first (same_source vault_id source) rows, record s { signal_subscriptions = rows })
  where
    row : SignalSubscription
    row = record {
      id = new_id;
      vault_id = vault_id;
      source = source;
      weight = weight;
      enabled = enabled;
    }

unfoldable pub list_signal_subscriptions : ℕ → Store → List SignalSubscription
list_signal_subscriptions vault_id s = select (λ x. x.vault_id == vault_id) s.signal_subscriptions

unfoldable pub record_signal : ℕ → ℕ → ℕ → SignalSource → ℕ → Store → Signal × Store
record_signal new_id now vault_id source contribution s =
    (row, record s { signals = insert row s.signals })
  where
    row : Signal
    row = record {
      id = new_id;
      vault_id = vault_id;
      source = source;
      observed_at = now;
      contribution = contribution;
    }

unfoldable pub list_recent_signals : ℕ → ℕ → Store → List Signal
list_recent_signals vault_id since s =
    order_by_desc (λ x. x.observed_at)
      (select (λ x. (x.vault_id == vault_id) && leb since x.observed_at) s.signals)

-- JOIN vault v ON v.id = s.vault_id WHERE v.principal_id = $1
abbrev pub of_vaults_of : ℕ → List Vault → Signal → Bool
of_vaults_of principal_id vaults x =
    any (λ v. (v.id == x.vault_id) && (v.principal_id == principal_id)) vaults

unfoldable pub list_principal_activity : ℕ → ℕ → Store → List Signal
list_principal_activity principal_id n s =
    limit n
      (order_by_desc (λ x. x.observed_at) (select (of_vaults_of principal_id s.vaults) s.signals))

abbrev pub by_installation : String → AppleShortcutSub → Bool
by_installation installation_id x = str_eq x.installation_id installation_id

-- UNIQUE (installation_id)
unfoldable pub create_apple_shortcut_sub :
    ℕ → String → List ℕ → Store → Result DbError (Unit {0}) × Store
create_apple_shortcut_sub principal_id installation_id key s =
    elim (first (by_installation installation_id) s.apple_shortcut_subs) [
      | some old ↦ (err unique_violation, s)
      | none ↦ (ok tt, record s { apple_shortcut_subs = insert row s.apple_shortcut_subs })
    ]
  where
    row : AppleShortcutSub
    row = record {
      principal_id = principal_id;
      installation_id = installation_id;
      secret_hmac_key = key;
      last_ping_at = none;
    }

unfoldable pub fetch_apple_shortcut_sub : String → Store → Option (ℕ × List ℕ)
fetch_apple_shortcut_sub installation_id s =
    Option.map (λ x. (x.principal_id, x.secret_hmac_key))
      (first (by_installation installation_id) s.apple_shortcut_subs)

unfoldable pub touch_apple_shortcut_sub : ℕ → String → Store → Store
touch_apple_shortcut_sub now installation_id s = record s {
  apple_shortcut_subs =
      update (by_installation installation_id) (λ x. record x { last_ping_at = some now })
        s.apple_shortcut_subs;
}

abbrev pub dormancy_of : ℕ → BankDormancy → Bool
dormancy_of principal_id x = x.principal_id == principal_id

abbrev pub dormancy_webhook : ℕ → BankDormancy → Bool
dormancy_webhook webhook_id x = x.webhook_id == webhook_id

-- ON CONFLICT (principal_id) DO NOTHING
unfoldable pub create_bank_dormancy_sub : ℕ → ℕ → ℕ → ℕ → List ℕ → Store → Store
create_bank_dormancy_sub new_id now principal_id webhook_id key s = record s {
  bank_dormancies = upsert (dormancy_of principal_id) (λ x. x) row s.bank_dormancies;
}
  where
    row : BankDormancy
    row = record {
      id = new_id;
      principal_id = principal_id;
      webhook_id = webhook_id;
      secret_hmac_key = key;
      last_webhook_at = none;
      created_at = now;
    }

unfoldable pub fetch_bank_dormancy_sub : ℕ → Store → Option BankDormancy
fetch_bank_dormancy_sub principal_id s = first (dormancy_of principal_id) s.bank_dormancies

unfoldable pub fetch_bank_dormancy_sub_by_webhook : ℕ → Store → Option BankDormancy
fetch_bank_dormancy_sub_by_webhook webhook_id s =
    first (dormancy_webhook webhook_id) s.bank_dormancies

unfoldable pub touch_bank_dormancy_sub : ℕ → ℕ → Store → Store
touch_bank_dormancy_sub now webhook_id s = record s {
  bank_dormancies =
      update (dormancy_webhook webhook_id) (λ x. record x { last_webhook_at = some now })
        s.bank_dormancies;
}

unfoldable pub delete_bank_dormancy_sub : ℕ → Store → Store
delete_bank_dormancy_sub principal_id s = record s {
  bank_dormancies = delete (dormancy_of principal_id) s.bank_dormancies;
}

-- WHERE principal_id = $1 AND last_webhook_at > $2
unfoldable pub list_bank_dormancy_subs_with_recent_ping : ℕ → ℕ → Store → List ℕ
list_bank_dormancy_subs_with_recent_ping principal_id since s =
    map (λ x. x.webhook_id)
      (select (λ x. dormancy_of principal_id x && after x.last_webhook_at since) s.bank_dormancies)
