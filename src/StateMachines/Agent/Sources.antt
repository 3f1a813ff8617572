-- ===== src/StateMachines/Agent/Sources.antt =====
-- `allowed_sources` against `validate_transition`.
use smart_dialer.Base.{
  ◌≡◌, ◌↔◌, refl, Bool, true, List, [], ◌∷◌, ◌&&◌, inl, inr, contains, arith, Bool-cases,
}
use smart_dialer.Model.Enums.{AgentState, same_agent_state, same_agent_state→≡}
use smart_dialer.StateMachines.Agent.{
  TransitionActor, Validation, can_transition, is_actor_allowed, validate_transition, select,
  allowed_sources, agent_states,
}

contains-select :
    (test : AgentState → Bool) (s : AgentState) (states : List AgentState)
    → contains same_agent_state s (select test states)
      ≡ (contains same_agent_state s states && test s)
contains-select test s [] = refl
contains-select test s (x ∷ states) = elim (Bool-cases (same_agent_state s x)) [
  | inl e ↦ rw (e, same_agent_state→≡ s x e) (ground (arith, contains-select test x states))
  | inr e ↦ rw e (ground (arith, contains-select test s states, e))
]

contains-agent_states : (s : AgentState) → contains same_agent_state s agent_states ≡ true
contains-agent_states AgentState.offline = refl
contains-agent_states _ = refl

valid-test :
    (s t : AgentState) (a : TransitionActor)
    → (can_transition s t && is_actor_allowed s t a) ≡ true
    → validate_transition s t a ≡ Validation.valid
unfolding validate_transition
valid-test s t a h = ground arith

test-valid :
    (s t : AgentState) (a : TransitionActor)
    → validate_transition s t a ≡ Validation.valid
    → (can_transition s t && is_actor_allowed s t a) ≡ true
unfolding validate_transition
test-valid s t a h = ground arith

-- `allowed_sources target actor` has exactly the states from which `validate_transition` lets the
-- actor go to the target.
pub allowed_sources-validate :
    (s t : AgentState) (a : TransitionActor)
    → (contains same_agent_state s (allowed_sources t a) ≡ true)
      ↔ (validate_transition s t a ≡ Validation.valid)
unfolding allowed_sources
allowed_sources-validate s t a = (
  λ h. valid-test s t a (
      ground (
        arith,
        contains-select (λ state. can_transition state t && is_actor_allowed state t a) s
            agent_states,
      )),
  λ h. rw (contains-select, contains-agent_states s) (test-valid s t a h),
)
