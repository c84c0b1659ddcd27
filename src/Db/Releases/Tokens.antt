-- ===== src/Db/Releases/Tokens.antt =====
-- The claim tokens of the recipients.
use paschal.Base.{
  ℕ, String, ◌+◌, ◌*◌, ◌≤◌, ◌≡◌, refl, none, some, arith, ◌==◌, if◌then◌else◌, after, Option-cases,
  inl, inr,
}
use paschal.Db.Sql.{first}
use paschal.Db.Sql.Lookup.{first-insert, first_narrow, first-update_gone}
use paschal.Db.Tables.{Store, ReleaseEvent}
use paschal.Db.Releases.{issue_release_claim, consume_release_claim, is_claimable, event_by_id}

claim_gone :
    (now later token_hash : ℕ) (s : Store)
    → now ≤ later
    → first
        (is_claimable later token_hash)
        (consume_release_claim now token_hash s).1.release_claims
      ≡ none
unfolding consume_release_claim
claim_gone now later token_hash s h =
    elim (Option-cases (first (is_claimable now token_hash) s.release_claims)) [
      | inl e ↦
          rw (e, consume_release_claim)
            (first_narrow (is_claimable now token_hash) (is_claimable later token_hash)
              s.release_claims (λ r q. ground arith) e)
      | inr (c, e) ↦
          rw (e, consume_release_claim)
            (first-update_gone (is_claimable later token_hash) (is_claimable now token_hash)
              (λ c. record c { claimed_at = some now }) s.release_claims (λ r q. ground arith)
              (λ r q. ground arith))
    ]

-- A claim that was tried once, in time or too late, opens nothing at any later time, and a further
-- attempt changes nothing.
pub release_claim_single_use :
    (now later token_hash : ℕ) (s : Store)
    → now ≤ later
    → let s' = (consume_release_claim now token_hash s).1 in
      consume_release_claim later token_hash s' ≡ (none, s')
unfolding consume_release_claim
release_claim_single_use now later token_hash s h =
    rw (claim_gone now later token_hash s h, consume_release_claim) refl

-- A claim with a new token opens its letter for its recipient until its days are over, with the
-- drill mark of its release event, and nothing from then on.
pub release_claim_round_trip :
    (now later event_id letter_id token_hash ttl_days : ℕ) (email : String) (s : Store)
    (re : ReleaseEvent)
    → first (λ c. c.token_hash == token_hash) s.release_claims ≡ none
    → first (event_by_id event_id) s.release_events ≡ some re
    → (consume_release_claim later token_hash
        (issue_release_claim now event_id letter_id email token_hash ttl_days s)).0
      ≡ (if after (some (now + ttl_days * 86400)) later
          then some (letter_id, email, re.is_drill)
          else none)
unfolding consume_release_claim issue_release_claim
release_claim_round_trip now later event_id letter_id token_hash ttl_days email s re fresh ev =
    ground (
      arith,
      first-insert (is_claimable later token_hash)
          (record {
            token_hash = token_hash;
            release_event_id = event_id;
            letter_id = letter_id;
            recipient_email = email;
            expires_at = now + ttl_days * 86400;
            claimed_at = none;
          })
          s.release_claims
          (first_narrow (λ c. c.token_hash == token_hash) (is_claimable later token_hash)
            s.release_claims (λ r q. ground arith) fresh),
    )
