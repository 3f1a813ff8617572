-- ===== src/StateMachines/Agent/Table.antt =====
-- What the two tables of the agents' transitions say together.
use smart_dialer.Base.{◌≡◌, ◌↔◌, true, false, arith}
use smart_dialer.Model.Enums.{AgentState}
use smart_dialer.StateMachines.Agent.{
  TransitionActor, Validation, can_transition, is_actor_allowed, validate_transition,
  counts_as_busy,
}

-- An agent that was not busy becomes busy only by AVAILABLE -> RESERVED, and only the allocator
-- may do that.
pub busy_by_reservation :
    (s t : AgentState) (a : TransitionActor)
    → validate_transition s t a ≡ Validation.valid
    → counts_as_busy s ≡ false
    → counts_as_busy t ≡ true
    → (s ≡ AgentState.available) × (t ≡ AgentState.reserved) × (a ≡ TransitionActor.allocator)
unfolding validate_transition
busy_by_reservation s t a valid idle busy = ground arith

-- some actor that may take an edge of the table
abbrev an_actor : AgentState → AgentState → TransitionActor
an_actor AgentState.offline _ = TransitionActor.agent
an_actor AgentState.available AgentState.reserved = TransitionActor.allocator
an_actor AgentState.reserved AgentState.dialing = TransitionActor.allocator
an_actor AgentState.dialing AgentState.connected = TransitionActor.event_processor
an_actor AgentState.connected AgentState.wrap_up = TransitionActor.event_processor
an_actor AgentState.available _ = TransitionActor.agent
an_actor AgentState.paused _ = TransitionActor.agent
an_actor AgentState.wrap_up AgentState.paused = TransitionActor.agent
an_actor _ _ = TransitionActor.recovery

-- The tables agree: every edge of the first has an actor in the second, and every pair with an
-- actor is an edge.
pub tables_agree :
    (s t : AgentState)
    → (can_transition s t ≡ true) ↔ ((a : TransitionActor) × (is_actor_allowed s t a ≡ true))
unfolding can_transition is_actor_allowed
tables_agree s t = (λ h. (an_actor s t, ground arith), λ (a, h). ground arith)
