-- ===== src/Db/Passkeys/Ceremonies.antt =====
-- crates/beacon-db/src/lib.rs: a challenge serves one ceremony once, and who deletes a passkey.
use paschal.Base.{ℕ, ◌≤◌, ◌≡◌, ◌≢◌, ap, String, true, false, none, arith, ◌==◌, eq_iff, any}
use mathlib.Core.Option
use paschal.Db.Sql.Upsert.{
  first-delete_gone, first-delete_other, any-delete_gone, delete_none, delete_never,
}
use paschal.Db.Tables.{Store}
use paschal.Db.Passkeys.{is_consumable, consume_webauthn_challenge, own_passkey, delete_passkey}

-- A challenge that was asked for, with success or not, is not given again for the same ceremony,
-- and it is left for the other ceremony.
pub challenge_single_use :
    (now later id : ℕ) (ceremony other : String) (s : Store)
    → now ≤ later
    → other ≢ ceremony
    → let s' = (consume_webauthn_challenge now id ceremony s).1 in
      ((consume_webauthn_challenge later id ceremony s').0 ≡ none)
      × ((consume_webauthn_challenge later id other s').0
          ≡ (consume_webauthn_challenge later id other s).0)
unfolding consume_webauthn_challenge
challenge_single_use now later id ceremony other s le differ = (
  ap (Option.map (λ c. (c.state_json, c.principal_id))) (
      first-delete_gone (is_consumable later id ceremony) (is_consumable now id ceremony)
        s.webauthn_challenges (λ c h. ground (arith, h))),
  ap (Option.map (λ c. (c.state_json, c.principal_id))) (
      first-delete_other (is_consumable later id other) (is_consumable now id ceremony)
        s.webauthn_challenges
        (λ c h. ground (arith, h, eq_iff c.ceremony other, eq_iff c.ceremony ceremony))),
)

-- A deletion that answers true leaves no passkey of the principal with that id and no envelope
-- for it; one that answers false changes neither table.
pub delete_passkey_lem :
    (id principal_id : ℕ) (s : Store)
    → let (removed, s') = delete_passkey id principal_id s in
      (removed ≡ true
        → (any (own_passkey id principal_id) s'.passkeys ≡ false)
          × (any (λ e. e.passkey_id == id) s'.zk_envelopes ≡ false))
      × (removed ≡ false → (s'.passkeys ≡ s.passkeys) × (s'.zk_envelopes ≡ s.zk_envelopes))
unfolding delete_passkey
delete_passkey_lem id principal_id s = (
  (λ yes. (
    any-delete_gone (own_passkey id principal_id) (own_passkey id principal_id) s.passkeys
        (λ k h. h),
    rw yes (
        any-delete_gone (λ e. e.passkey_id == id) (λ e. e.passkey_id == id) s.zk_envelopes
          (λ e h. h)),
  )),
  (λ no. (
    delete_none (own_passkey id principal_id) s.passkeys (ground arith),
    rw no (delete_never s.zk_envelopes),
  )),
)
