-- ===== src/Examples/Results.antt =====
-- The theorems at the example's database: a worker places a call, the provider's events for it
-- arrive, and the recovery sweeps run.
use smart_dialer.Lifecycle.Moves.{retry_policy}
use smart_dialer.Base.{ℕ, ◌≤◌, ◌≡◌, refl, none, some, List, [], ◌∷◌, All, arith}
use smart_dialer.Model.{Agent, Call, Campaign}
use smart_dialer.Model.Enums.{AgentState, CallState}
use smart_dialer.StateMachines.Call.{rank}
use smart_dialer.Repositories.Events.{ProviderEvent}
use smart_dialer.Base.{get}
use smart_dialer.Lifecycle.Steps.{IsConsistent, HasLease, HasBudget, IsSpent}
use smart_dialer.Lifecycle.Database.{Reach}
use smart_dialer.Lifecycle.History.Calls.{find_call}
use smart_dialer.Lifecycle.History.Agents.{find_agent}
use smart_dialer.Lifecycle.History.Borrowers.{find_borrower}
use smart_dialer.Lifecycle.History.Campaigns.{find_campaign}
use smart_dialer.Metrics.Accounts.{IsUtilized}
use smart_dialer.Metrics.Campaign.{agents_limit}
use smart_dialer.Repositories.Agents.{find_for_campaign}
use smart_dialer.Workers.Campaigns.{CampaignAction}
use smart_dialer.System.History.{
  run-Reach, run-terminal_call, run-call_forward, run-calls-IsConsistent, run-agent_version,
  run-agents_leased, run-closed_borrower, run-attempts_bounded, run-exhausted-IsSpent,
  run-campaign_fixed, run-utilization,
}
use smart_dialer.System.{
  Job, provider_event, dial, campaign_status, recover, sample_metrics, replay_events, run,
}
use smart_dialer.Examples.Environment.{
  thousandths, env, env-IsEnv, agent_1, borrower_2, call_1, campaign_7, database, start,
}

abbrev late_event : ProviderEvent
late_event = record {
  provider_name = 5;
  provider_event_id = 77;
  provider_call_id = 40;
  event_type = "RINGING";
  provider_timestamp = 842000;
  reason = none;
}

abbrev jobs : List Job
jobs =
    dial 9
    ∷ campaign_status 7 CampaignAction.pause
    ∷ provider_event late_event
    ∷ recover
    ∷ sample_metrics
    ∷ replay_events (some 40)
    ∷ []

run-Reach_example : Reach (retry_policy env) database (run env jobs start).db
run-Reach_example = run-Reach env env-IsEnv jobs start

run-terminal_call_example :
    (d : Call) × (find_call 1 (run env jobs start).db ≡ some d) × (d.state ≡ CallState.completed)
unfolding get
run-terminal_call_example =
    run-terminal_call env env-IsEnv jobs start 1 call_1 refl (refl, refl) refl

run-call_forward_example :
    (d : Call) × (find_call 1 (run env jobs start).db ≡ some d)
    × (6 ≤ rank d.state)
    × IsConsistent d
    × (d.agent_id ≡ 1)
    × (d.borrower_id ≡ 2)
    × (d.created_by_worker ≡ 9)
    × (d.provider_name ≡ 5)
    × ((p : ℕ) → some 40 ≡ some p → d.provider_call_id ≡ some p)
unfolding get
run-call_forward_example = run-call_forward env env-IsEnv jobs start 1 call_1 refl (refl, refl)

run-calls-IsConsistent_example : All IsConsistent (run env jobs start).db.calls
run-calls-IsConsistent_example = run-calls-IsConsistent env env-IsEnv jobs start ((refl, refl), tt)

run-agent_version_example :
    (b : Agent) × (find_agent 1 (run env jobs start).db ≡ some b)
    × (4 ≤ b.state_version)
    × (b.state_version ≡ 4 → b.state ≡ AgentState.available)
    × (b.campaign_id ≡ 7)
    × (60000 ≤ b.busy_time_ms)
    × (50000 ≤ b.connected_time_ms)
unfolding get
run-agent_version_example = run-agent_version env env-IsEnv jobs start 1 agent_1 refl

run-agents_leased_example : All HasLease (run env jobs start).db.agents
run-agents_leased_example =
    run-agents_leased env env-IsEnv jobs start ((λ leased. ground (arith, leased)), tt)

run-closed_borrower_example : find_borrower 2 (run env jobs start).db ≡ some borrower_2
unfolding get
run-closed_borrower_example = run-closed_borrower env env-IsEnv jobs start 2 borrower_2 refl refl

run-attempts_bounded_example : All (HasBudget 3) (run env jobs start).db.borrowers
run-attempts_bounded_example =
    run-attempts_bounded env env-IsEnv jobs start
      ((λ still_open. omega arith), ((λ still_open. omega arith), tt))

run-exhausted-IsSpent_example : All (IsSpent 3) (run env jobs start).db.borrowers
run-exhausted-IsSpent_example =
    run-exhausted-IsSpent env env-IsEnv jobs start
      ((λ over. ground (arith, over)), ((λ over. ground (arith, over)), tt))

run-campaign_fixed_example :
    (b : Campaign) × (find_campaign 7 (run env jobs start).db ≡ some b)
    × (b.provider_name ≡ 5)
    × (b.max_concurrent_calls ≡ 10)
    × (b.baseline_answer_rate ≡ 300)
unfolding get
run-campaign_fixed_example = run-campaign_fixed env env-IsEnv jobs start 7 campaign_7 refl

run-utilization_example :
    IsUtilized thousandths 7 1200000 (find_for_campaign env 7 agents_limit (run env jobs start)).0
run-utilization_example =
    run-utilization env env-IsEnv jobs start 7 agents_limit 1200000 (omega arith, tt)
