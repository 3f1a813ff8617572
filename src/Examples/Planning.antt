-- ===== src/Examples/Planning.antt =====
-- The theorems on pacing, metrics, the simulation and the mock providers at concrete inputs.
use smart_dialer.Base.{
  IsDistinct, get, true, ℕ, ◌+◌, ◌≤◌, ◌≡◌, ◌↔◌, refl, false, none, some, [], ◌∷◌, arith, here, next,
}
use smart_dialer.Model.Enums.{CallState, DialingMode, ProviderHealthStatus}
use smart_dialer.Repositories.Events.{ProviderEvent}
use smart_dialer.Dialers.Modes.{progressive_dialer, predictive_dialer, engine_config}
use smart_dialer.Pacing.Snapshot.{PacingSnapshot}
use smart_dialer.Pacing.Engine.{compute_request, raw_request}
use smart_dialer.Pacing.AnswerRate.{blended_answer_rate}
use smart_dialer.Pacing.Scaling.{compute_request-unhealthy, progressive-free_agents}
use smart_dialer.Examples.Doubles.{thousandths-IsDouble}
use smart_dialer.Model.{Call}
use smart_dialer.World.{ProviderCallStatus, OriginateRequest}
use smart_dialer.Workers.Recovery.{provider_status_to_call_state}
use smart_dialer.Providers.Script.{MockBehaviour, Draws, Naming, build_event_script}
use smart_dialer.Providers.Following.{follow}
use smart_dialer.Providers.Endings.{build_event_script-ends}
use smart_dialer.Providers.Mock.{
  Fortune, MockProvider, originate_call, hangup_call, get_call_status, originate, hang_up,
}
use smart_dialer.Providers.Lifetime.{deliver_times, hangup_call-final, deliver_times-ends}
use smart_dialer.Providers.Tally.{IsTallied, Turns-IsTallied}
use smart_dialer.Simulation.Invariants.{check_duplicate_bindings}
use smart_dialer.Simulation.Distinct.{check_duplicate_bindings-exact}
use smart_dialer.Metrics.Campaign.{collect}
use smart_dialer.Metrics.Balance.{IsBalancedReport, collect-IsBalancedReport}
use smart_dialer.Model.Enums.{AgentState}
use smart_dialer.StateMachines.Agent.{TransitionActor, allowed_sources}
use smart_dialer.Repositories.Agents.{reserved_agent, released_agent}
use smart_dialer.Repositories.Borrowers.{
  BorrowerReleaseOutcome, reserved_borrower, released_borrower,
}
use smart_dialer.World.{World, ◌>>=◌, now, write_calls, pure}
use smart_dialer.Examples.Memory.{locate}
use smart_dialer.Repositories.Calls.{transition_call, transitioned_call, from_mongo}
use smart_dialer.Lifecycle.History.Ends.{IsOver, transition_call-IsOver}
use smart_dialer.Contracts.Reservations.{released-reserved}
use smart_dialer.Examples.Environment.{
  env-IsEnv, database, agent_1, borrower_1, campaign_7, call_1, env, thousandths, start,
}

abbrev late_event : ProviderEvent
late_event = record {
  provider_name = 5;
  provider_event_id = 77;
  provider_call_id = 40;
  event_type = "COMPLETED";
  provider_timestamp = 842000;
  reason = none;
}

-- four agents are free, one of them is reserved, and one call rings
abbrev snapshot_4 : PacingSnapshot ℕ
snapshot_4 = record {
  campaign_id = 7;
  mode = DialingMode.progressive;
  available_agents = 4;
  reserved_agents = 1;
  dialing_agents = 0;
  connected_agents = 2;
  wrap_up_agents = 1;
  long_connected_agents = 1;
  previous_available_agents = 4;
  ringing_calls = 1;
  initiated_calls = 0;
  active_calls = 1;
  recent_answer_rate = some 400;
  previous_answer_rate = none;
  baseline_answer_rate = 300;
  avg_talk_time_seconds = 20000;
  avg_setup_time_ms = 900000;
  provider_status = ProviderHealthStatus.healthy;
  health_factor = 1000;
  captured_at = 1000000;
}

progressive-free_agents_example :
    (compute_request thousandths snapshot_4 (engine_config env progressive_dialer)).requested ≤ 2
progressive-free_agents_example =
    progressive-free_agents env snapshot_4 thousandths-IsDouble (omega arith) (omega arith)
      (omega arith) (record { not_greater = refl; not_negative = refl })
      (record { not_greater = refl; not_negative = refl })

compute_request-unhealthy_example :
    (compute_request thousandths
      (record snapshot_4 { health_factor = 0 })
      (engine_config env predictive_dialer)).requested
    ≡ 0
unfolding engine_config raw_request blended_answer_rate
compute_request-unhealthy_example =
    compute_request-unhealthy thousandths thousandths-IsDouble
      (record snapshot_4 { health_factor = 0 }) (engine_config env predictive_dialer)
      (record { not_greater = refl; not_negative = refl })
      (record { not_greater = refl; not_negative = refl }) refl (omega arith)

check_duplicate_bindings-exact_example :
    (check_duplicate_bindings
        (call_1 ∷ record call_1 { id = 2; agent_id = 3; borrower_id = 4 } ∷ [])
      ≡ [])
    ↔ (IsDistinct
          (λ (c : Call). c.agent_id)
          (call_1 ∷ record call_1 { id = 2; agent_id = 3; borrower_id = 4 } ∷ [])
        × IsDistinct
            (λ (c : Call). c.borrower_id)
            (call_1 ∷ record call_1 { id = 2; agent_id = 3; borrower_id = 4 } ∷ []))
check_duplicate_bindings-exact_example =
    check_duplicate_bindings-exact
      (call_1 ∷ record call_1 { id = 2; agent_id = 3; borrower_id = 4 } ∷ [])

collect-IsBalancedReport_example :
    IsBalancedReport 7 database.calls (collect env campaign_7 start).0
collect-IsBalancedReport_example = collect-IsBalancedReport env env-IsEnv campaign_7 start

-- every event list is swapped and has a repetition, and every call is answered
abbrev unlucky : Draws ℕ
unlucky = record {
  answer_draw = 0;
  order_draw = 0;
  duplicate_draw = 0;
  gauss = λ mean deviation. mean;
  order_index = λ n. 1;
  duplicate_index = λ n. 0;
}

abbrev mock_b : MockBehaviour ℕ
mock_b = record {
  failure_rate = 150;
  hang_rate = 80;
  answer_rate = 300;
  avg_talk_time = 120000;
  ring_duration = 3000;
  duplicate_rate = 100;
  out_of_order_rate = 100;
}

abbrev naming_40 : Naming
naming_40 = record {
  provider_name = 5;
  provider_call_id = 40;
  event_id = λ n. 400 + n;
  timestamp = λ n. 1000000;
}

-- a call that was just dialled
abbrev dialled_call : Call
dialled_call = record call_1 { state = CallState.initiated; state_rank = 2; terminal = false }

build_event_script-ends_example :
    (follow
      (λ n. 1000000 + n)
      0
      (build_event_script thousandths mock_b unlucky naming_40).0
      dialled_call).state
    ≡ provider_status_to_call_state (build_event_script thousandths mock_b unlucky naming_40).1
build_event_script-ends_example =
    build_event_script-ends thousandths mock_b unlucky naming_40 (λ n. 1000000 + n) 0 dialled_call
      (refl, refl) refl (omega arith)

abbrev fortune_1 : Fortune ℕ
fortune_1 = record {
  is_blank = λ phone_number. false;
  now = 2000000;
  hang_draw = 500;
  latency_seconds = 200;
  latency_ms = 200;
  cancelled = false;
  failure_draw = 500;
  behaviour = mock_b;
  draws = unlucky;
  naming = λ id. naming_40;
}

abbrev request_7 : OriginateRequest
request_7 = record {
  call_id = 1;
  campaign_id = 7;
  phone_number = "+910000000001";
  timeout_ms = 5000;
}

-- one call was accepted and is active, with one event to come
abbrev mock_provider : MockProvider ℕ
mock_provider = record {
  call_counter = 1;
  active_calls =
      (1, record { scheduled = (3000, late_event) ∷ []; final_status = ProviderCallStatus.failed })
      ∷ [];
  finished_calls = [];
  outage_until = none;
  originate_attempts = 2;
  originate_accepted = 1;
  originate_rejected = 1;
  originate_timed_out = 0;
}

abbrev later_provider : MockProvider ℕ
later_provider = (originate_call thousandths fortune_1 request_7 (hangup_call 1 mock_provider)).1

hangup_call-final_example : get_call_status 1 later_provider ≡ ProviderCallStatus.completed
hangup_call-final_example =
    hangup_call-final thousandths 1 mock_provider later_provider
      (record { scheduled = (3000, late_event) ∷ []; final_status = ProviderCallStatus.failed })
      refl (omega arith) (next here (originate fortune_1 request_7))

deliver_times-ends_example :
    get_call_status 1 (deliver_times 2 1 (λ i. false) mock_provider) ≡ ProviderCallStatus.failed
deliver_times-ends_example =
    deliver_times-ends 1 (λ i. false) mock_provider ProviderCallStatus.failed
      ((3000, late_event) ∷ []) refl refl

Turns-IsTallied_example : IsTallied later_provider
Turns-IsTallied_example =
    Turns-IsTallied thousandths mock_provider later_provider
      (next (next here (hang_up 1)) (originate fortune_1 request_7))
      (record { attempts = omega arith; names = refl })

released-reserved_example :
    (released_agent
        (allowed_sources AgentState.available TransitionActor.allocator)
        AgentState.available
        1007000
        (reserved_agent 9 30 1000000 agent_1)
      ≡ record agent_1 { state_version = 6; state_changed_at = 1007000; busy_time_ms = 67000 })
    × (released_borrower BorrowerReleaseOutcome.released 1007000 3 60
          (reserved_borrower 9 30 1000000 borrower_1)
        ≡ record borrower_1 { state_version = 4 })
released-reserved_example =
    released-reserved agent_1 borrower_1 9 30 1000000 1007000 3 60
      (record {
        available = refl;
        no_worker = refl;
        no_reservation = refl;
        no_lease = refl;
        no_call = refl;
      })
      (record { pending = refl; no_worker = refl; no_reservation = refl; no_lease = refl })

-- that call is stored
abbrev dialled : World
dialled = record start { db = record database { calls = dialled_call ∷ [] } }

-- as the request to complete it answers
abbrev completed_call : Call
completed_call = record dialled_call {
  state = CallState.completed;
  state_rank = 6;
  terminal = true;
  ended_at = some 1000000;
  updated_at = 1000000;
}

transition_call-IsOver_example :
    IsOver 1 (transition_call env 1 CallState.completed none dialled).1.db.calls
unfolding get transition_call transitioned_call ◌>>=◌ now from_mongo write_calls locate pure
transition_call-IsOver_example =
    transition_call-IsOver env env-IsEnv dialled 1 CallState.completed none dialled_call
      (some completed_call) (tt, tt) refl (refl, refl) refl refl
