-- ===== src/Examples/Promises.antt =====
-- The theorems on single operations at concrete inputs.
use smart_dialer.Base.{
  ℕ, ◌+◌, ◌*◌, ◌^◌, ◌≤◌, ◌<◌, ◌≡◌, ◌↔◌, ◌⊎◌, inl, refl, true, false, none, some, List, [], ◌∷◌,
  contains, arith,
}
use smart_dialer.Errors.{Error, Outcome}
use smart_dialer.Model.Enums.{
  AgentState, CallState, DialingMode, BorrowerStatus, ProviderHealthStatus, SafetyVerdict,
  EventProcessingStatus, same_agent_state,
}
use smart_dialer.StateMachines.Call.{rank, is_terminal, can_transition, should_apply_event}
use smart_dialer.StateMachines.Call.Order.{can_transition-rank, should_apply_event-race}
use smart_dialer.StateMachines.Agent.{
  TransitionActor, Validation, validate_transition, allowed_sources, is_actor_allowed,
  can_transition as agent_can_transition,
}
use smart_dialer.StateMachines.Agent.Sources.{allowed_sources-validate}
use smart_dialer.StateMachines.Agent.Table.{busy_by_reservation, tables_agree}
use smart_dialer.Store.{Stored}
use smart_dialer.World.{World, OriginateSample}
use smart_dialer.Repositories.Events.{ProviderEvent, event_document}
use smart_dialer.Services.CallAllocator.{allocate}
use smart_dialer.Services.EventProcessor.{process_event}
use smart_dialer.Services.ProviderHealth.{health_of}
use smart_dialer.Settings.{seconds}
use smart_dialer.Safety.Constraints.{PacingRequest, CapacityReading, SafetyConstraintResult}
use smart_dialer.Safety.Controller.{decide, evaluate, evaluate_checked}
use smart_dialer.Safety.Limits.{
  decision, decide-capacity, decide-stops, decide-binding, decide-verdict,
}
use smart_dialer.Safety.Evaluation.{IsSafeOutcome, IsClosedOutcome, evaluate-IsSafe}
use smart_dialer.Contracts.Allocation.{IsAllocated, allocate-IsAllocated}
use smart_dialer.Contracts.Events.{process_event-replay}
use smart_dialer.Contracts.Retries.{retried_at, retried-exhausted}
use smart_dialer.Contracts.Health.{health_of-unhealthy}
use smart_dialer.Examples.Environment.{
  campaign_7, env, env-IsEnv, defaults, thousandths, borrower_1, database, start,
}

abbrev request_5 : PacingRequest
request_5 = record { requested = 5; mode = DialingMode.predictive; snapshot_captured_at = 999000 }

abbrev reading_4 : CapacityReading ℕ
reading_4 = record {
  available_agents = 4;
  reserved_agents = 1;
  active_calls = 8;
  ringing_calls = 3;
  expired_leases = 0;
  call_failure_rate = 100;
  provider_status = ProviderHealthStatus.healthy;
}

abbrev reading_stale : CapacityReading ℕ
reading_stale = record reading_4 { expired_leases = 1 }

decide-capacity_example :
    ((decision env campaign_7 request_5 none reading_4 1000 none 1000000).approved ≤ 5)
    × ((decision env campaign_7 request_5 none reading_4 1000 none 1000000).approved ≤ 3)
    × ((decision env campaign_7 request_5 none reading_4 1000 none 1000000).approved ≤ 2)
    × ((decision env campaign_7 request_5 none reading_4 1000 none 1000000).approved ≤ 5)
decide-capacity_example = decide-capacity env campaign_7 request_5 none reading_4 1000 none 1000000

decide-stops_example :
    (decision env campaign_7 request_5 none reading_stale 1000 none 1000000).approved ≡ 0
decide-stops_example =
    decide-stops env campaign_7 request_5 none reading_stale 1000 none 1000000 (inl refl)

decide-binding_example :
    (c : SafetyConstraintResult ℕ) × Stored
      (decision env campaign_7 request_5 none reading_4 1000 none 1000000).constraints
      c
    × (c.limit ≡ (decision env campaign_7 request_5 none reading_4 1000 none 1000000).approved)
    × (c.binding ≡ true)
    × ((decision env campaign_7 request_5 none reading_4 1000 none 1000000).binding_constraint
        ≡ some c.name)
unfolding decide
decide-binding_example =
    decide-binding env campaign_7 request_5 none reading_4 1000 none 1000000 (omega arith)

decide-verdict_example :
    (((decision env campaign_7 request_5 none reading_4 1000 none 1000000).verdict
        ≡ SafetyVerdict.rejected)
      ↔ ((0 < 5)
          × ((decision env campaign_7 request_5 none reading_4 1000 none 1000000).approved ≡ 0)))
    × ((decision env campaign_7 request_5 none reading_4 1000 none 1000000).verdict
          ≡ SafetyVerdict.approved
        → (decision env campaign_7 request_5 none reading_4 1000 none 1000000).approved ≡ 5)
decide-verdict_example = decide-verdict env campaign_7 request_5 none reading_4 1000 none 1000000

evaluate-IsSafe_example :
    IsSafeOutcome request_5 (evaluate env campaign_7 request_5 none true start).0
    × IsClosedOutcome
        (evaluate_checked env campaign_7 request_5 none start).0
        (evaluate env campaign_7 request_5 none true start).0
evaluate-IsSafe_example = evaluate-IsSafe env campaign_7 request_5 none true start

allocate-IsAllocated_example :
    IsAllocated env campaign_7 9 3 start
      (allocate env campaign_7 3 9 start).0
      (allocate env campaign_7 3 9 start).1
allocate-IsAllocated_example = allocate-IsAllocated env campaign_7 9 3 start

abbrev late_event : ProviderEvent
late_event = record {
  provider_name = 5;
  provider_event_id = 77;
  provider_call_id = 40;
  event_type = "COMPLETED";
  provider_timestamp = 842000;
  reason = none;
}

-- that event was recorded before
abbrev recorded : World
unfolding event_document
recorded = record start { db = record database { events = event_document late_event 990000 ∷ [] } }

process_event-replay_example :
    ((process_event env late_event recorded).1 ≡ record recorded { db = recorded.db; moment = 1 })
    × (((process_event env late_event recorded).0
          ≡ Outcome.ok (record {
            status = EventProcessingStatus.duplicate_ignored;
            applied_transition = none;
          }))
        ⊎ ((process_event env late_event recorded).0 ≡ Outcome.raised Error.mongo_error))
unfolding event_document
process_event-replay_example =
    process_event-replay env env-IsEnv late_event recorded (event_document late_event 990000)
      (record { left = []; right = []; split = refl }) refl

can_transition-rank_example :
    (rank CallState.initiated < rank CallState.connected)
    × (is_terminal CallState.initiated ≡ false)
unfolding can_transition
can_transition-rank_example = can_transition-rank CallState.initiated CallState.connected refl

should_apply_event-race_example : can_transition CallState.ringing CallState.connected ≡ true
unfolding should_apply_event
should_apply_event-race_example =
    should_apply_event-race CallState.initiated CallState.ringing CallState.connected refl
      (omega arith) refl (omega arith)

allowed_sources-validate_example :
    (contains same_agent_state AgentState.dialing
        (allowed_sources AgentState.available TransitionActor.recovery)
      ≡ true)
    ↔ (validate_transition AgentState.dialing AgentState.available TransitionActor.recovery
        ≡ Validation.valid)
allowed_sources-validate_example =
    allowed_sources-validate AgentState.dialing AgentState.available TransitionActor.recovery

busy_by_reservation_example :
    (AgentState.available ≡ AgentState.available)
    × (AgentState.reserved ≡ AgentState.reserved)
    × (TransitionActor.allocator ≡ TransitionActor.allocator)
unfolding validate_transition
busy_by_reservation_example =
    busy_by_reservation AgentState.available AgentState.reserved TransitionActor.allocator refl refl
      refl

tables_agree_example :
    (agent_can_transition AgentState.paused AgentState.available ≡ true)
    ↔ ((a : TransitionActor) × (is_actor_allowed AgentState.paused AgentState.available a ≡ true))
tables_agree_example = tables_agree AgentState.paused AgentState.available

retried-exhausted_example :
    ((retried_at 3 60 (990000 ∷ 980000 ∷ []) borrower_1).status ≡ BorrowerStatus.exhausted ↔ 3 ≤ 3)
    × ((retried_at 3 60 (990000 ∷ 980000 ∷ []) borrower_1).next_eligible_at
        ≡ 990000 + seconds (60 * 2 ^ 2))
retried-exhausted_example = retried-exhausted 3 60 990000 (980000 ∷ []) borrower_1

abbrev timed_out : OriginateSample
timed_out = record { recorded_at = 990000; success = false; timed_out = true; latency_ms = 5000 }

abbrev failures : List OriginateSample
failures = timed_out ∷ timed_out ∷ timed_out ∷ timed_out ∷ timed_out ∷ []

health_of-unhealthy_example :
    (health_of thousandths defaults 5 0 1000000
      (record timed_out { success = true } ∷ failures)).status
    ≡ ProviderHealthStatus.unhealthy
health_of-unhealthy_example =
    health_of-unhealthy thousandths defaults 5 0 1000000 (record timed_out { success = true } ∷ [])
      failures (refl, (refl, (refl, (refl, (refl, tt))))) (omega arith)
