-- ===== src/Tests/DomainRuns.antt =====
-- Runs of the domain: transitions and scores.
use paschal.Base.{◌≡◌, refl, true, List, [], ◌∷◌, any}
use paschal.Domain.VaultState.{
  VaultState, cooling_off, releasing, released, eq, transition, can_transition,
}
use paschal.Domain.VaultState.Transitions.{walk, release_was_cooling_off}
use paschal.Domain.SignalSource.{SignalSource}
use paschal.Domain.Score.{ScoredObservation}
use paschal.Tests.Fixtures.{fixed_point}

abbrev observed : SignalSource → ScoredObservation ⦃f = fixed_point⦄
observed source = record { source = source; contribution = 80; weight = 50 }

abbrev release_path : List VaultState
release_path = cooling_off ∷ releasing ∷ released ∷ []

release_was_cooling_off_example : any (eq cooling_off) release_path ≡ true
unfolding walk transition can_transition
release_was_cooling_off_example = release_was_cooling_off release_path released refl refl
