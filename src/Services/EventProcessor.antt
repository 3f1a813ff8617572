-- ===== src/Services/EventProcessor.antt =====
-- app/services/event_processor.py
use text.Mathlib.Text.{◌==◌ as same_text}
use smart_dialer.Base.{Bool, true, false, ◌&&◌, String, Option, none, some, is_some, if◌then◌else◌}
use smart_dialer.Errors.{Error, Outcome}
use smart_dialer.Model.{Agent, Call, AppliedTransition}
use smart_dialer.Model.Enums.{
  AgentState, CallState, EventProcessingStatus, same_agent_state, same_call_state,
}
use smart_dialer.StateMachines.Agent.{TransitionActor}
use smart_dialer.StateMachines.Call.{
  EventApplicability, should_apply_event, agent_state_for_call_state,
}
use smart_dialer.Repositories.Agents.{find_agent_by_id, release_agent, transition_agent}
use smart_dialer.Repositories.Borrowers.{release_borrower}
use smart_dialer.Repositories.Calls.{find_by_provider_call_id, transition_call}
use smart_dialer.Repositories.Events.{
  ProviderEvent, EventRecordResult, record_event, mark_processed,
}
use smart_dialer.Services.Retry.{outcome_for_terminal_call}
use smart_dialer.World.{Action, Env, ◌>>=◌, ◌>>◌, pure, raise, attempt}

-- EVENT_TYPE_TO_CALL_STATE
unfoldable pub event_type_to_call_state : String → Option CallState
event_type_to_call_state event_type =
    if same_text event_type "RINGING"
    then some CallState.ringing
    else if same_text event_type "ANSWERED"
    then some CallState.answered
    else if same_text event_type "CONNECTED"
    then some CallState.connected
    else if same_text event_type "COMPLETED"
    then some CallState.completed
    else if same_text event_type "FAILED"
    then some CallState.failed
    else if same_text event_type "CANCELLED"
    then some CallState.cancelled
    else none

-- AGENT_RELEASING_CALL_STATES
abbrev pub releases_agent : CallState → Bool
releases_agent CallState.completed = true
releases_agent CallState.failed = true
releases_agent CallState.cancelled = true
releases_agent _ = false

pub record EventProcessingResult : Type 0 where
  pub status : EventProcessingStatus
  pub applied_transition : Option AppliedTransition

-- `str(event.payload.get("reason", "provider_reported_failure"))`
abbrev pub failure_reason : Option String → CallState → Option String
failure_reason none CallState.failed = some "provider_reported_failure"
failure_reason (some reason) CallState.failed = some reason
failure_reason reason _ = none

module _ {F : Type 0} (e : Env F) where
  unfoldable pub finish :
      ProviderEvent
      → EventProcessingStatus
      → Option AppliedTransition
      → Action EventProcessingResult
  finish event status applied_transition = do
    mark_processed e event.provider_name event.provider_event_id status applied_transition
    pure (record { status = status; applied_transition = applied_transition })

  -- `try: ... except StateMachineError`: the anomaly is logged
  unfoldable pub log_agent_anomaly : Outcome (Option Agent) → Action (Unit {0})
  log_agent_anomaly (Outcome.ok updated) = pure tt
  log_agent_anomaly (Outcome.raised Error.invalid_state_transition) = pure tt
  log_agent_anomaly (Outcome.raised Error.unauthorized_transition_actor) = pure tt
  log_agent_anomaly (Outcome.raised x) = raise x

  -- `_apply_agent_transition`, once the agent is found and is not in that state yet
  unfoldable pub move_agent : Call → CallState → AgentState → Agent → Action (Unit {0})
  unfolding log_agent_anomaly
  move_agent call target_state agent_state agent =
      if releases_agent target_state
      then (do
        release_agent e agent.id call.created_by_worker agent_state TransitionActor.event_processor
        pure tt)
      else attempt
          (transition_agent e agent.id agent.state agent_state TransitionActor.event_processor
            agent.state_version)
          log_agent_anomaly

  unfoldable pub move_found_agent : Call → CallState → AgentState → Option Agent → Action (Unit {0})
  unfolding move_agent
  move_found_agent call target_state agent_state none = pure tt
  move_found_agent call target_state agent_state (some agent) =
      if same_agent_state agent.state agent_state
      then pure tt
      else move_agent call target_state agent_state agent

  unfoldable pub apply_implied_state : Call → CallState → Option AgentState → Action (Unit {0})
  unfolding move_found_agent
  apply_implied_state call target_state none = pure tt
  apply_implied_state call target_state (some agent_state) = do
    agent ← find_agent_by_id e call.agent_id
    move_found_agent call target_state agent_state agent

  unfoldable pub apply_agent_transition : Call → CallState → Action (Unit {0})
  unfolding apply_implied_state
  apply_agent_transition call target_state =
      apply_implied_state call target_state (agent_state_for_call_state target_state)

  -- `_release_borrower`
  unfoldable pub release_call_borrower : Call → CallState → Action (Unit {0})
  release_call_borrower call target_state = do
    release_borrower e call.borrower_id call.created_by_worker
        (outcome_for_terminal_call
          (same_call_state target_state CallState.completed && is_some call.answered_at))
        e.settings.max_call_attempts e.settings.retry_backoff_base_seconds
    pure tt

  -- what follows the transition of the call
  unfoldable pub after_transition :
      ProviderEvent → CallState → CallState → Option Call → Action EventProcessingResult
  unfolding apply_agent_transition release_call_borrower finish
  after_transition event old target_state none =
      finish event EventProcessingStatus.stale_ignored none
  after_transition event old target_state (some updated) = do
    apply_agent_transition updated target_state
    (if releases_agent target_state then release_call_borrower updated target_state else pure tt)
    finish event EventProcessingStatus.processed (some (AppliedTransition.moved old target_state))

  -- IGNORED_APPLICABILITY_STATUS
  unfoldable pub apply_by :
      EventApplicability → ProviderEvent → Call → CallState → Action EventProcessingResult
  unfolding after_transition finish
  apply_by EventApplicability.ignore_terminal event call target_state =
      finish event EventProcessingStatus.stale_ignored none
  apply_by EventApplicability.ignore_stale event call target_state =
      finish event EventProcessingStatus.stale_ignored none
  apply_by EventApplicability.ignore_invalid event call target_state =
      finish event EventProcessingStatus.invalid_ignored none
  apply_by EventApplicability.apply event call target_state = do
    updated ← transition_call e call.id target_state (failure_reason event.reason target_state)
    after_transition event call.state target_state updated

  unfoldable pub apply_to_call :
      ProviderEvent → Option CallState → Option Call → Action EventProcessingResult
  unfolding apply_by finish
  apply_to_call event target none = finish event EventProcessingStatus.invalid_ignored none
  apply_to_call event none (some call) = finish event EventProcessingStatus.invalid_ignored none
  apply_to_call event (some target_state) (some call) =
      apply_by (should_apply_event call.state target_state) event call target_state

  unfoldable pub apply_event : ProviderEvent → Action EventProcessingResult
  unfolding apply_to_call
  apply_event event = do
    call ← find_by_provider_call_id e event.provider_name event.provider_call_id
    apply_to_call event (event_type_to_call_state event.event_type) call

  -- the handler of `except Exception`, which asyncio's cancellation passes
  unfoldable pub apply_outcome :
      ProviderEvent → Outcome EventProcessingResult → Action EventProcessingResult
  unfolding finish
  apply_outcome event (Outcome.ok result) = pure result
  apply_outcome event (Outcome.raised Error.cancelled) = raise Error.cancelled
  apply_outcome event (Outcome.raised x) =
      finish event EventProcessingStatus.invalid_ignored (some (AppliedTransition.error_kind x))

  unfoldable pub process_recorded : ProviderEvent → EventRecordResult → Action EventProcessingResult
  unfolding apply_event apply_outcome
  process_recorded event EventRecordResult.duplicate =
      pure (record { status = EventProcessingStatus.duplicate_ignored; applied_transition = none })
  process_recorded event EventRecordResult.recorded =
      attempt (apply_event event) (apply_outcome event)

  unfoldable pub process_event : ProviderEvent → Action EventProcessingResult
  unfolding process_recorded
  process_event event = do result ← record_event e event; process_recorded event result
