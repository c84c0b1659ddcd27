-- ===== src/Tests/DbRuns.antt =====
-- Runs of the queries on vaults, letters and releases.
use paschal.Base.{◌≡◌, refl, false, [], ◌∷◌, none, some}
use paschal.Domain.VaultState.{cooling_off}
use paschal.Db.Sql.{affected, first}
use paschal.Db.Race.{wins}
use paschal.Db.Tables.{Store}
use paschal.Db.Vaults.{fetch_vault, claim_vault_for_release}
use paschal.Db.Vaults.Claims.{exactly_one_release_claim}
use paschal.Db.Releases.{issue_release_claim, consume_release_claim}
use paschal.Db.Releases.Tokens.{release_claim_round_trip}
use paschal.Tests.Fixtures.{estate, vault_in, open_event}

abbrev stored : Store
stored = estate cooling_off

exactly_one_release_claim_example : wins (claim_vault_for_release 1) 3 stored ≡ 1
unfolding fetch_vault first affected
exactly_one_release_claim_example =
    exactly_one_release_claim 1 2 stored (vault_in cooling_off) refl refl refl

abbrev redirected : Store
redirected = record stored {
  recipient_changes =
      record {
        id = 70;
        letter_id = 12;
        co_steward_id = 90;
        old_email = "bob@example.org";
        new_email = "eve@example.org";
        requested_at = 100;
        effective_at = 400;
        applied_at = none;
        cancelled_at = none;
      }
      ∷ [];
}

release_claim_round_trip_example :
    (consume_release_claim 200 2 (issue_release_claim 100 40 10 "bob@example.org" 2 30 stored)).0
    ≡ some (10, "bob@example.org", false)
unfolding first
release_claim_round_trip_example =
    release_claim_round_trip 100 200 40 10 2 30 "bob@example.org" stored open_event refl refl
