-- ===== src/Examples/Endings.antt =====
-- An event that ends a call, at a concrete input.
use smart_dialer.Base.{false, ◌≡◌, refl, none, some, [], ◌∷◌}
use smart_dialer.Errors.{Outcome}
use smart_dialer.Model.{AppliedTransition}
use smart_dialer.Model.Enums.{CallState, EventProcessingStatus}
use smart_dialer.StateMachines.Call.{should_apply_event}
use smart_dialer.Repositories.Events.{
  ProviderEvent, record_event, record_result, event_document, mark_processed,
}
use smart_dialer.Repositories.Calls.{
  transition_call, transitioned_call, from_mongo, find_by_provider_call_id,
}
use smart_dialer.Services.EventProcessor.{
  EventProcessingResult, event_type_to_call_state, process_event, process_recorded, apply_outcome,
  apply_event, apply_to_call, apply_by, after_transition, apply_agent_transition,
  apply_implied_state, move_found_agent, move_agent, release_call_borrower, finish,
  log_agent_anomaly,
}
use smart_dialer.Repositories.Agents.{find_agent_by_id, release_agent}
use smart_dialer.Repositories.Borrowers.{release_borrower}
use smart_dialer.Examples.Memory.{locate, answer_at}
use smart_dialer.World.{
  World, ◌>>=◌, now, query, attempt, write_agents, write_borrowers, write_calls, write_events, pure,
  raise,
}
use smart_dialer.Contracts.Endings.{HasEnded, process_event-HasEnded}
use smart_dialer.Examples.Environment.{env-IsEnv, database, call_1, env, start}

-- a call that rings, with the provider's id 40
abbrev ringing : World
ringing = record start {
  db = record database {
    calls = record call_1 { state = CallState.ringing; state_rank = 3; terminal = false } ∷ [];
  };
}

abbrev failed_event : ProviderEvent
failed_event = record {
  provider_name = 5;
  provider_event_id = 78;
  provider_call_id = 40;
  event_type = "FAILED";
  provider_timestamp = 843000;
  reason = none;
}

abbrev failed_result : EventProcessingResult
failed_result = record {
  status = EventProcessingStatus.processed;
  applied_transition = some (AppliedTransition.moved CallState.ringing CallState.failed);
}

failed_returns : (process_event env failed_event ringing).0 ≡ Outcome.ok failed_result
unfolding process_event process_recorded apply_outcome apply_event apply_to_call apply_by
    after_transition apply_agent_transition apply_implied_state move_found_agent move_agent
    release_call_borrower finish log_agent_anomaly record_event record_result event_document
    mark_processed find_by_provider_call_id from_mongo transition_call transitioned_call
    event_type_to_call_state should_apply_event find_agent_by_id release_agent release_borrower
    ◌>>=◌ now query attempt write_agents write_borrowers write_calls write_events pure raise locate
    answer_at
failed_returns = refl

process_event-HasEnded_example :
    HasEnded failed_event (process_event env failed_event ringing).1.db.calls
unfolding event_type_to_call_state
process_event-HasEnded_example =
    process_event-HasEnded env env-IsEnv failed_event failed_result ringing CallState.failed
      (tt, tt) ((refl, refl), tt) refl refl failed_returns refl
