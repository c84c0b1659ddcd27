-- ===== src/Tests/WorkerRuns.antt =====
-- Runs of the workers.
use paschal.Base.{◌≡◌, refl, true, [], ◌∷◌, any, ◌⊎◌}
use paschal.Domain.VaultState.{active, alert, can_transition}
use paschal.Domain.Score.{TriggerScore, should_alert}
use paschal.Scheduler.Evaluate.{evaluate, ticks, cooling_off_needs_alert, evaluate_edges}
use paschal.App.World.{World}
use paschal.Tests.Fixtures.{fixed_point, estate, world_with, triggered_duress}

-- A score of 0.9 from two classes.
abbrev grave : TriggerScore ⦃f = fixed_point⦄
grave = record { score = 90; contributing = []; independent_classes = 2 }

evaluate_edges_example :
    let next = evaluate ⦃f = fixed_point⦄ alert grave 70 2 in
    (next ≡ alert) ⊎ (can_transition alert next ≡ true) ⊎ ((alert ≡ active) × (next ≡ alert))
evaluate_edges_example = evaluate_edges ⦃f = fixed_point⦄ alert grave 70 2

cooling_off_needs_alert_example :
    any (λ s. should_alert ⦃f = fixed_point⦄ s 70 2) (grave ∷ grave ∷ []) ≡ true
unfolding evaluate should_alert ticks
cooling_off_needs_alert_example =
    cooling_off_needs_alert ⦃f = fixed_point⦄ 70 2 (grave ∷ grave ∷ []) refl

abbrev alert_world : World
alert_world = world_with (estate alert)

abbrev duress_world : World
duress_world = world_with (record (estate alert) { duress_signals = triggered_duress ∷ [] })
