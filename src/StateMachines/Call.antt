-- ===== src/StateMachines/Call.antt =====
-- app/state_machines/call_sm.py
pub mod Order
use smart_dialer.Base.{
  ℕ, Bool, Option, none, some, List, [], ◌∷◌, leb, not, contains, if◌then◌else◌,
}
use smart_dialer.Model.Enums.{
  AgentState, CallState, call_state_rank, terminal_call_state, same_call_state,
}

pub data EventApplicability : Type 0 where
  apply ignore_terminal ignore_stale ignore_invalid : EventApplicability

-- CALL_TRANSITIONS
abbrev pub call_transitions : CallState → List CallState
call_transitions CallState.queued =
    CallState.reserved ∷ CallState.initiated ∷ CallState.failed ∷ CallState.cancelled ∷ []
call_transitions CallState.reserved =
    CallState.initiated ∷ CallState.failed ∷ CallState.cancelled ∷ []
call_transitions CallState.initiated =
    CallState.ringing ∷ CallState.answered ∷ CallState.connected ∷ CallState.completed
    ∷ CallState.failed ∷ CallState.cancelled ∷ []
call_transitions CallState.ringing =
    CallState.answered ∷ CallState.connected ∷ CallState.completed ∷ CallState.failed
    ∷ CallState.cancelled ∷ []
call_transitions CallState.answered =
    CallState.connected ∷ CallState.completed ∷ CallState.failed ∷ CallState.cancelled ∷ []
call_transitions CallState.connected =
    CallState.completed ∷ CallState.failed ∷ CallState.cancelled ∷ []
call_transitions CallState.completed = []
call_transitions CallState.failed = []
call_transitions CallState.cancelled = []

-- AGENT_STATE_FOR_CALL_STATE
abbrev pub agent_state_for_call_state : CallState → Option AgentState
agent_state_for_call_state CallState.initiated = some AgentState.dialing
agent_state_for_call_state CallState.ringing = some AgentState.dialing
agent_state_for_call_state CallState.answered = some AgentState.connected
agent_state_for_call_state CallState.connected = some AgentState.connected
agent_state_for_call_state CallState.completed = some AgentState.wrap_up
agent_state_for_call_state CallState.failed = some AgentState.available
agent_state_for_call_state CallState.cancelled = some AgentState.available
agent_state_for_call_state _ = none

abbrev pub rank : CallState → ℕ
rank state = call_state_rank state

abbrev pub is_terminal : CallState → Bool
is_terminal state = terminal_call_state state

unfoldable pub can_transition : CallState → CallState → Bool
can_transition current target = contains same_call_state target (call_transitions current)

unfoldable pub should_apply_event : CallState → CallState → EventApplicability
unfolding can_transition
should_apply_event current target =
    if is_terminal current
    then EventApplicability.ignore_terminal
    else if leb (rank target) (rank current)
    then EventApplicability.ignore_stale
    else if not (can_transition current target)
    then EventApplicability.ignore_invalid
    else EventApplicability.apply
