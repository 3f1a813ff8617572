-- ===== src/StateMachines/Agent.antt =====
-- app/state_machines/agent_sm.py
pub mod Sources
pub mod Table
use smart_dialer.Base.{
  ℕ, Bool, true, false, List, [], ◌∷◌, ◌==◌, not, contains, ◌&&◌, if◌then◌else◌,
}
use smart_dialer.Errors.{Error}
use smart_dialer.Model.Enums.{AgentState, same_agent_state}

pub data TransitionActor : Type 0 where
  allocator event_processor recovery agent worker_timer : TransitionActor

abbrev actor_code : TransitionActor → ℕ
actor_code TransitionActor.allocator = 0
actor_code TransitionActor.event_processor = 1
actor_code TransitionActor.recovery = 2
actor_code TransitionActor.agent = 3
actor_code TransitionActor.worker_timer = 4

abbrev pub same_actor : TransitionActor → TransitionActor → Bool
same_actor a b = actor_code a == actor_code b

-- AGENT_TRANSITIONS
abbrev pub agent_transitions : AgentState → List AgentState
agent_transitions AgentState.offline = AgentState.available ∷ []
agent_transitions AgentState.available =
    AgentState.reserved ∷ AgentState.paused ∷ AgentState.offline ∷ []
agent_transitions AgentState.reserved =
    AgentState.dialing ∷ AgentState.available ∷ AgentState.offline ∷ []
agent_transitions AgentState.dialing =
    AgentState.connected ∷ AgentState.available ∷ AgentState.offline ∷ []
agent_transitions AgentState.connected =
    AgentState.wrap_up ∷ AgentState.available ∷ AgentState.offline ∷ []
agent_transitions AgentState.wrap_up =
    AgentState.available ∷ AgentState.paused ∷ AgentState.offline ∷ []
agent_transitions AgentState.paused = AgentState.available ∷ AgentState.offline ∷ []

-- TRANSITION_ACTORS, with the empty set where the table has no entry
abbrev pub transition_actors : AgentState → AgentState → List TransitionActor
transition_actors AgentState.offline AgentState.available = TransitionActor.agent ∷ []
transition_actors AgentState.available AgentState.reserved = TransitionActor.allocator ∷ []
transition_actors AgentState.available AgentState.paused = TransitionActor.agent ∷ []
transition_actors AgentState.available AgentState.offline =
    TransitionActor.agent ∷ TransitionActor.recovery ∷ []
transition_actors AgentState.reserved AgentState.dialing = TransitionActor.allocator ∷ []
transition_actors AgentState.reserved AgentState.available =
    TransitionActor.allocator ∷ TransitionActor.recovery ∷ []
transition_actors AgentState.reserved AgentState.offline =
    TransitionActor.agent ∷ TransitionActor.recovery ∷ []
transition_actors AgentState.dialing AgentState.connected = TransitionActor.event_processor ∷ []
transition_actors AgentState.dialing AgentState.available =
    TransitionActor.allocator ∷ TransitionActor.event_processor ∷ TransitionActor.recovery ∷ []
transition_actors AgentState.dialing AgentState.offline =
    TransitionActor.agent ∷ TransitionActor.recovery ∷ []
transition_actors AgentState.connected AgentState.wrap_up = TransitionActor.event_processor ∷ []
transition_actors AgentState.connected AgentState.available =
    TransitionActor.event_processor ∷ TransitionActor.recovery ∷ []
transition_actors AgentState.connected AgentState.offline =
    TransitionActor.agent ∷ TransitionActor.recovery ∷ []
transition_actors AgentState.wrap_up AgentState.available =
    TransitionActor.worker_timer ∷ TransitionActor.recovery ∷ []
transition_actors AgentState.wrap_up AgentState.paused = TransitionActor.agent ∷ []
transition_actors AgentState.wrap_up AgentState.offline =
    TransitionActor.agent ∷ TransitionActor.recovery ∷ []
transition_actors AgentState.paused AgentState.available = TransitionActor.agent ∷ []
transition_actors AgentState.paused AgentState.offline =
    TransitionActor.agent ∷ TransitionActor.recovery ∷ []
transition_actors _ _ = []

-- `for state in AgentState`
abbrev pub agent_states : List AgentState
agent_states =
    AgentState.offline ∷ AgentState.available ∷ AgentState.reserved ∷ AgentState.dialing
    ∷ AgentState.connected ∷ AgentState.wrap_up ∷ AgentState.paused ∷ []

unfoldable pub can_transition : AgentState → AgentState → Bool
can_transition current target = contains same_agent_state target (agent_transitions current)

unfoldable pub is_actor_allowed : AgentState → AgentState → TransitionActor → Bool
is_actor_allowed current target actor = contains same_actor actor (transition_actors current target)

pub data Validation : Type 0 where
  valid : Validation
  refused : Error → Validation

unfoldable pub validate_transition : AgentState → AgentState → TransitionActor → Validation
unfolding can_transition is_actor_allowed
validate_transition current target actor =
    if not (can_transition current target)
    then Validation.refused Error.invalid_state_transition
    else if not (is_actor_allowed current target actor)
    then Validation.refused Error.unauthorized_transition_actor
    else Validation.valid

-- the members that pass the test, in order
abbrev pub select {ℓ} : {A : Type ℓ} → (A → Bool) → List A → List A
select test [] = []
select test (x ∷ xs) = let rest = select test xs in if test x then x ∷ rest else rest

unfoldable pub allowed_sources : AgentState → TransitionActor → List AgentState
unfolding can_transition is_actor_allowed
allowed_sources target actor =
    select (λ state. can_transition state target && is_actor_allowed state target actor)
      agent_states

-- BUSY_AGENT_STATES
abbrev pub counts_as_busy : AgentState → Bool
counts_as_busy AgentState.reserved = true
counts_as_busy AgentState.dialing = true
counts_as_busy AgentState.connected = true
counts_as_busy AgentState.wrap_up = true
counts_as_busy _ = false

abbrev pub is_claimable : AgentState → Bool
is_claimable state = same_agent_state state AgentState.available
