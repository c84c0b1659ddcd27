-- ===== src/Routes/Usage.antt =====
-- crates/beacon-api/src/routes.rs: what a principal reads of plan, usage, activity and signals, and
-- the observation of a Microsoft account.
use paschal.Base.{ℕ, ◌+◌, ◌*◌, ◌-◌, not, List, Option, pos, ltb, length}
use mathlib.Core.Option
use paschal.Base.Float.{Float32, clamp_unit}
use paschal.Domain.SignalSource.{microsoft_account}
use paschal.Domain.Plans.{
  PlanFeatures, self_hosted, plan_features, public_catalog, effective_storage_bytes,
}
use paschal.Db.Tables.{Subscription, Signal, SignalSubscription, TransparencyEntry, Buddy}
use paschal.Db.Vaults as VaultQueries
use paschal.Db.Contacts as ContactQueries
use paschal.Db.Contacts.{storage_used, vault_count}
use paschal.Db.Tables.Presence.{VaultContact}
use paschal.Db.Presence as Presence
use paschal.Db.Presence.{last_heartbeat, list_principal_activity}
use paschal.Db.Deputies as Deputies
use paschal.Db.Subscriptions.{fetch_subscription}
use paschal.Db.Releases.{list_transparency_entries}
use paschal.App.World.{Platform, bad_request}
use paschal.App.Monad.{Api, ◌>>=◌, ◌>>◌, pure, ensure, ask, ask_result}
use paschal.Routes.Auth.{current_principal}
use paschal.Routes.Vaults.{owned_vault}
use paschal.Routes.Signals.{observe_all}

-- `parse_plan_param`: every text is the single plan.
unfoldable pub list_plans : List PlanFeatures
list_plans = public_catalog

-- The percentage is left out: it is an f64.
pub record UsageView : Type 0 where
  pub storage_used_bytes : ℕ
  pub storage_quota_bytes : ℕ
  pub vaults_used : ℕ
  pub vaults_quota : ℕ
  pub letters_quota_per_vault : ℕ
  pub co_stewards_quota : ℕ
  pub retention_days : ℕ
  pub scheduled_horizon_days : ℕ

pub record ActivityResp : Type 0 where
  pub last_heartbeat_at : Option ℕ
  pub next_heartbeat_due_at : Option ℕ
  pub events : List Signal

-- `HEARTBEAT_DUE_DAYS`, in seconds.
abbrev pub heartbeat_due : ℕ
heartbeat_due = 14 * 86400

-- The newest 200.
unfoldable pub list_transparency_log : Api (List TransparencyEntry)
list_transparency_log = ask (list_transparency_entries 200)

module _ ⦃p : Platform⦄ where
  unfoldable pub get_subscription : ℕ → Option ℕ → Api Subscription
  get_subscription now headers = do
    pid ← current_principal now headers
    ask_result (fetch_subscription pid)

  unfoldable pub get_usage : ℕ → Option ℕ → Api UsageView
  get_usage now headers = do
    pid ← current_principal now headers
    sub ← ask_result (fetch_subscription pid)
    used ← ask (storage_used pid)
    vaults ← ask (vault_count pid)
    let plan = plan_features self_hosted in
        pure (record {
          storage_used_bytes = used;
          storage_quota_bytes = effective_storage_bytes self_hosted sub.extra_storage_bytes;
          vaults_used = vaults;
          vaults_quota = plan.max_vaults;
          letters_quota_per_vault = plan.max_letters_per_vault;
          co_stewards_quota = plan.max_co_stewards;
          retention_days = plan.retention_days;
          scheduled_horizon_days = plan.scheduled_horizon_days;
        })

  unfoldable pub get_activity : ℕ → Option ℕ → Api ActivityResp
  get_activity now headers = do
    pid ← current_principal now headers
    last ← ask (last_heartbeat pid)
    events ← ask (list_principal_activity pid 20)
    pure (record {
      last_heartbeat_at = last;
      next_heartbeat_due_at = Option.map (λ t. t + heartbeat_due) last;
      events = events;
    })

  unfoldable pub list_signal_subscriptions : ℕ → Option ℕ → ℕ → Api (List SignalSubscription)
  unfolding owned_vault
  list_signal_subscriptions now headers vault_id = do
    (pid, vault) ← owned_vault now headers vault_id
    ask (Presence.list_signal_subscriptions vault.id)

  unfoldable pub list_vault_contacts : ℕ → Option ℕ → ℕ → Api (List VaultContact)
  unfolding owned_vault
  list_vault_contacts now headers vault_id = do
    (pid, vault) ← owned_vault now headers vault_id
    ask (ContactQueries.list_vault_contacts vault.id)

  unfoldable pub list_buddies : ℕ → Option ℕ → Api (List Buddy)
  list_buddies now headers = do pid ← current_principal now headers; ask (Deputies.list_buddies pid)

  module _ ⦃f : Float32⦄ where
    -- The contribution rises to 1 over 14 days without a sign-in.
    unfoldable pub sign_in_staleness : ℕ → ℕ → f.F
    sign_in_staleness now last_sign_in_at =
        clamp_unit (f.div (f.of_int (pos (now - last_sign_in_at))) (f.of_int (pos (14 * 86400))))

    -- How many vaults an observation was recorded for.
    unfoldable pub microsoft_observe : ℕ → Option ℕ → ℕ → Api ℕ
    unfolding sign_in_staleness observe_all
    microsoft_observe now headers last_sign_in_at = do
      pid ← current_principal now headers
      ensure (not (ltb (now + 5 * 60) last_sign_in_at)) bad_request
      vaults ← ask (VaultQueries.list_vaults pid)
      observe_all now pid microsoft_account (f.to_bits (sign_in_staleness now last_sign_in_at))
      pure (length vaults)
