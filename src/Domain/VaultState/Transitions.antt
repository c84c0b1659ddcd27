-- ===== src/Domain/VaultState/Transitions.antt =====
-- The life of a vault under `transition`.
use paschal.Base.{◌≡◌, ◌⊎◌, ok, arith, List, [], ◌∷◌, Result, and_then, Bool, true, any}
use paschal.Domain.Errors.{DomainError}
use paschal.Domain.VaultState.{
  VaultState, active, cooling_off, releasing, released, archived, eq, can_transition, transition,
}

-- A vault led through a list of states, `?` after each transition.
unfoldable pub walk : VaultState → List VaultState → Result DomainError VaultState
walk from [] = ok from
walk from (to ∷ rest) = and_then (transition from to) (λ s. walk s rest)

-- States in which the letters are out or on their way out.
abbrev pub is_past_cooling : VaultState → Bool
is_past_cooling releasing = true
is_past_cooling released = true
is_past_cooling archived = true
is_past_cooling _ = Bool.false

step_past :
    (from to : VaultState)
    → can_transition from to ≡ true
    → is_past_cooling to ≡ true
    → (is_past_cooling from ≡ true) ⊎ (from ≡ cooling_off)
unfolding can_transition
step_past from to h p = ground arith

walk_through :
    (from : VaultState) (path : List VaultState) (v : VaultState)
    → walk from path ≡ ok v
    → is_past_cooling v ≡ true
    → (is_past_cooling from ≡ true) ⊎ (from ≡ cooling_off) ⊎ (any (eq cooling_off) path ≡ true)
unfolding walk transition eq
walk_through from [] v h p = ground arith
walk_through from (to ∷ rest) v h p = ground (arith, step_past from to, walk_through to rest v)

-- A vault that a chain of transitions leads from ACTIVE to RELEASING, RELEASED or ARCHIVED has
-- been in COOLING_OFF on the way.
pub release_was_cooling_off :
    (path : List VaultState) (v : VaultState)
    → walk active path ≡ ok v
    → is_past_cooling v ≡ true
    → any (eq cooling_off) path ≡ true
release_was_cooling_off path v h p = ground (arith, walk_through active path v)

step_stays :
    (from to : VaultState)
    → can_transition from to ≡ true
    → is_past_cooling from ≡ true
    → is_past_cooling to ≡ true
unfolding can_transition
step_stays from to h p = ground arith

-- From RELEASING, RELEASED or ARCHIVED no chain of transitions leads back to a state in which the
-- letters are still held.
pub release_is_final :
    (from : VaultState) (path : List VaultState) (v : VaultState)
    → walk from path ≡ ok v
    → is_past_cooling from ≡ true
    → is_past_cooling v ≡ true
unfolding walk transition
release_is_final from [] v h p = ground arith
release_is_final from (to ∷ rest) v h p =
    ground (arith, step_stays from to, release_is_final to rest v)
