-- ===== src/Routes/Duress/Arming.antt =====
-- crates/beacon-api/src/routes.rs: how a duress signal is armed, read and revoked.
use paschal.Base.{ℕ, String, Bool, true, false, ◌||◌, Option, none, some, str_eq, if◌then◌else◌}
use paschal.Base.Text.{contains, trim, is_empty}
use paschal.Db.Tables.{DuressSignal}
use paschal.Db.Deputies as Deputies
use paschal.Db.Deputies.{fetch_duress, delete_duress}
use paschal.App.World.{Platform, bad_request}
use paschal.App.Monad.{Api, ◌>>=◌, ◌>>◌, pure, ensure, ask, exec, call, draw}
use paschal.Routes.Auth.{current_principal}

pub record DuressView : Type 0 where
  pub armed : Bool
  pub triggered_at : Option ℕ
  pub webhook_id : Option ℕ
  pub alert_email : Option String
  pub panic_mode : String

-- The address of the webhook is its id.
unfoldable pub duress_view : Option DuressSignal → DuressView
duress_view none = record {
  armed = false;
  triggered_at = none;
  webhook_id = none;
  alert_email = none;
  panic_mode = "freeze";
}
duress_view (some r) = record {
  armed = true;
  triggered_at = r.triggered_at;
  webhook_id = some r.webhook_id;
  alert_email = r.alert_email;
  panic_mode = r.panic_mode;
}

-- `.map(str::trim).filter(|s| !s.is_empty())`
abbrev pub trimmed : Option String → Option String
trimmed none = none
trimmed (some s) = if is_empty (trim s) then none else some (trim s)

abbrev pub is_address : Option String → Bool
is_address none = true
is_address (some e) = contains b'@' e

-- `.map(str::trim).unwrap_or("freeze")`
abbrev pub mode_or_freeze : Option String → String
mode_or_freeze none = "freeze"
mode_or_freeze (some s) = trim s

module _ ⦃p : Platform⦄ where
  unfoldable pub arm_duress : ℕ → Option ℕ → Option String → Option String → Api DuressView
  unfolding duress_view
  arm_duress now headers alert_email panic_mode = do
    pid ← current_principal now headers
    ensure (is_address (trimmed alert_email)) bad_request
    ensure
        (str_eq (mode_or_freeze panic_mode) "freeze"
          || str_eq (mode_or_freeze panic_mode) "release")
        bad_request
    webhook_id ← draw
    row ←
        call
          (Deputies.arm_duress now pid webhook_id (trimmed alert_email) (mode_or_freeze panic_mode))
    pure (duress_view (some row))

  unfoldable pub get_duress : ℕ → Option ℕ → Api DuressView
  unfolding duress_view
  get_duress now headers = do
    pid ← current_principal now headers
    row ← ask (fetch_duress pid)
    pure (duress_view row)

  unfoldable pub revoke_duress : ℕ → Option ℕ → Api (Unit {0})
  revoke_duress now headers = do pid ← current_principal now headers; exec (delete_duress pid)
