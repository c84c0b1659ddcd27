-- ===== src/Tests/AccountRuns.antt =====
-- Runs of the queries on accounts, sessions and subscriptions.
use paschal.Base.{◌≡◌, refl, [], ◌∷◌, some, arith}
use paschal.Domain.VaultState.{active}
use paschal.Db.Sql.{first}
use paschal.Db.Tables.{Store}
use paschal.Db.Accounts.{create_co_steward_session, principal_for_session, co_steward_for_session}
use paschal.Db.Accounts.Sessions.{co_steward_acts_as_principal}
use paschal.Tests.Fixtures.{estate, leaving}

abbrev home : Store
home = estate active

co_steward_acts_as_principal_example :
    let s' = create_co_steward_session 100 90 7 6 24 home in
    (principal_for_session 200 6 s' ≡ some 7) × (co_steward_for_session 200 6 s' ≡ some (90, 7))
unfolding first
co_steward_acts_as_principal_example =
    co_steward_acts_as_principal 100 200 90 7 6 24 home refl (omega arith)

abbrev left_home : Store
left_home = record home { principals = leaving ∷ [] }
