-- ===== src/System/History.antt =====
-- What every document keeps through any number of jobs of a worker, while other workers run.
use smart_dialer.Lifecycle.Moves.{retry_policy}
use smart_dialer.Lifecycle.Steps.{RetryPolicy}
use smart_dialer.Base.{ℕ, ◌≤◌, ◌≡◌, true, false, some, List, [], ◌∷◌, All, here, Star-trans}
use smart_dialer.Model.{Agent, Borrower, Call, Campaign}
use smart_dialer.StateMachines.Call.{rank, is_terminal}
use smart_dialer.World.{World, Env}
use smart_dialer.Handlers.Agents.{Moves-agent_action}
use smart_dialer.Handlers.Metrics.{Moves-on_event, Moves-sample_once}
use smart_dialer.Handlers.Simulation.{
  Moves-log_everyone_in, Moves-heartbeat_round, Moves-duplicate_event_burst,
  Moves-out_of_order_burst, Moves-agent_availability_drop,
}
use smart_dialer.Metrics.Accounts.{IsUtilized, find_for_campaign-IsUtilized}
use smart_dialer.Repositories.Agents.{find_for_campaign}
use smart_dialer.Handlers.Reservation.{Moves-reserve_pair, Moves-release_pair}
use smart_dialer.Handlers.Campaigns.{
  Moves-dialer_pass, Moves-create_campaign, Moves-change_status, Moves-set_mode,
}
use smart_dialer.Handlers.Recovery.{Moves-run_sweeps}
use smart_dialer.Lifecycle.Steps.{IsConsistent, HasLease, IsAccounted, HasBudget, IsSpent, is_open}
use smart_dialer.Lifecycle.Database.{Reach}
use smart_dialer.Lifecycle.Moves.{IsEnv}
use smart_dialer.Lifecycle.History.Calls.{
  find_call, call_moves_forward, terminal_call_final, calls-IsConsistent,
}
use smart_dialer.Lifecycle.History.Agents.{
  find_agent, version_tells_state, agents_leased, agents-IsAccounted,
}
use smart_dialer.Lifecycle.History.Borrowers.{
  find_borrower, closed_borrower_final, attempts_bounded, exhausted-IsSpent,
}
use smart_dialer.Lifecycle.History.Campaigns.{find_campaign, campaign_fixed}
use smart_dialer.System.Jobs.{
  Job, agent_request, provider_event, reserve, release, dial, campaign_created, campaign_status,
  campaign_mode, recover, sample_metrics, simulated_login, simulated_heartbeats, replay_events,
  reverse_events, drop_agents, perform, run,
}

module _ {F : Type 0} (e : Env F) (law : IsEnv e) where
  abbrev k : RetryPolicy
  k = retry_policy e

  perform-Reach : (job : Job) (w : World) → Reach k w.db (perform e job w).db
  unfolding perform
  perform-Reach (agent_request agent_id action) w = (Moves-agent_action e law agent_id action).at w
  perform-Reach (provider_event event) w = (Moves-on_event e law event).at w
  perform-Reach (reserve campaign_id worker_id) w =
      (Moves-reserve_pair e law campaign_id worker_id).at w
  perform-Reach (release pair outcome) w = (Moves-release_pair e law pair outcome).at w
  perform-Reach (dial worker_id) w = (Moves-dialer_pass e law worker_id).at w
  perform-Reach (campaign_created payload) w = (Moves-create_campaign e law payload).at w
  perform-Reach (campaign_status campaign_id action) w =
      (Moves-change_status e law campaign_id action).at w
  perform-Reach (campaign_mode campaign_id mode) w = (Moves-set_mode e law campaign_id mode).at w
  perform-Reach recover w = (Moves-run_sweeps e law).at w
  perform-Reach sample_metrics w = (Moves-sample_once e law).at w
  perform-Reach (simulated_login campaign_id) w = (Moves-log_everyone_in e law campaign_id).at w
  perform-Reach (simulated_heartbeats campaign_id) w =
      (Moves-heartbeat_round e law campaign_id).at w
  perform-Reach (replay_events provider_call_id) w =
      (Moves-duplicate_event_burst e law provider_call_id).at w
  perform-Reach (reverse_events provider_call_id) w =
      (Moves-out_of_order_burst e law provider_call_id).at w
  perform-Reach (drop_agents campaign_id count) w =
      (Moves-agent_availability_drop e law campaign_id count).at w

  -- The code refines the specification: when the database service keeps its promises and the other
  -- workers make steps of `Step` only, a worker's process changes the database through any jobs by
  -- such steps only, one document at a time: an agent's state along a transition that some actor is
  -- allowed, with a new version; a borrower along the edges of `borrower_edge`, one attempt at a time
  -- and within the maximum, and eligible again, if it is pending after an attempt, when the backoff
  -- has passed; a call that is not over upwards in rank, and, when its derived fields agree with its
  -- state and it was dialled, along the table of transitions.
  pub run-Reach : (jobs : List Job) (w : World) → Reach k w.db (run e jobs w).db
  unfolding run
  run-Reach [] w = here
  run-Reach (job ∷ jobs) w = Star-trans (perform-Reach job w) (run-Reach jobs (perform e job w))

  module _ (jobs : List Job) (w : World) where
    -- In an environment as `IsEnv` assumes, a stored call that is over, with derived fields that
    -- agree with its state, stays stored and keeps its state through any jobs.
    pub run-terminal_call :
        (id : ℕ) (c : Call)
        → find_call id w.db ≡ some c
        → IsConsistent c
        → is_terminal c.state ≡ true
        → (d : Call) × (find_call id (run e jobs w).db ≡ some d) × (d.state ≡ c.state)
    run-terminal_call id c stored consistent over =
        terminal_call_final id (run-Reach jobs w) stored consistent over

    -- In an environment as `IsEnv` assumes, a stored call with derived fields that agree with its
    -- state stays stored with its agent, its borrower, its worker and its provider through any
    -- jobs; its rank does not fall, its derived fields agree with its state still, and the
    -- provider's call id, if one is attached, is the same.
    pub run-call_forward :
        (id : ℕ) (c : Call)
        → find_call id w.db ≡ some c
        → IsConsistent c
        → (d : Call) × (find_call id (run e jobs w).db ≡ some d)
          × (rank c.state ≤ rank d.state)
          × IsConsistent d
          × (d.agent_id ≡ c.agent_id)
          × (d.borrower_id ≡ c.borrower_id)
          × (d.created_by_worker ≡ c.created_by_worker)
          × (d.provider_name ≡ c.provider_name)
          × ((p : ℕ) → c.provider_call_id ≡ some p → d.provider_call_id ≡ some p)
    run-call_forward id c stored consistent =
        call_moves_forward id (run-Reach jobs w) stored consistent

    -- In an environment as `IsEnv` assumes, the derived fields of every call agree with its state
    -- after any jobs, if they did before.
    pub run-calls-IsConsistent :
        All IsConsistent w.db.calls → All IsConsistent (run e jobs w).db.calls
    run-calls-IsConsistent = calls-IsConsistent (run-Reach jobs w)

    -- In an environment as `IsEnv` assumes, a stored agent stays stored in its campaign through any
    -- jobs, its version and its busy and connected times do not fall, and if its version is the
    -- one from before, its state is too.
    pub run-agent_version :
        (id : ℕ) (a : Agent)
        → find_agent id w.db ≡ some a
        → (b : Agent) × (find_agent id (run e jobs w).db ≡ some b)
          × (a.state_version ≤ b.state_version)
          × (b.state_version ≡ a.state_version → b.state ≡ a.state)
          × (b.campaign_id ≡ a.campaign_id)
          × (a.busy_time_ms ≤ b.busy_time_ms)
          × (a.connected_time_ms ≤ b.connected_time_ms)
    run-agent_version id a stored = version_tells_state id (run-Reach jobs w) stored

    -- In an environment as `IsEnv` assumes, every agent that is reserved, dialing or connected has a
    -- worker that holds it and a time at which the lease ends, after any jobs, if it was so before.
    pub run-agents_leased : All HasLease w.db.agents → All HasLease (run e jobs w).db.agents
    run-agents_leased = agents_leased (run-Reach jobs w)

    -- In an environment as `IsEnv` assumes, a stored borrower that is contacted, exhausted, failed or
    -- not to be called is the same after any jobs.
    pub run-closed_borrower :
        (id : ℕ) (b : Borrower)
        → find_borrower id w.db ≡ some b
        → is_open b.status ≡ false
        → find_borrower id (run e jobs w).db ≡ some b
    run-closed_borrower id b stored closed =
        closed_borrower_final id (run-Reach jobs w) stored closed

    -- In an environment as `IsEnv` assumes, every borrower that is pending, reserved or in a call has
    -- had fewer attempts than the settings allow, after any jobs, if it was so before.
    pub run-attempts_bounded :
        All (HasBudget e.settings.max_call_attempts) w.db.borrowers
        → All (HasBudget e.settings.max_call_attempts) (run e jobs w).db.borrowers
    run-attempts_bounded = attempts_bounded (run-Reach jobs w)

    -- In an environment as `IsEnv` assumes, every borrower that is exhausted has had at least as
    -- many attempts as the settings allow, after any jobs, if it was so before.
    pub run-exhausted-IsSpent :
        All (IsSpent e.settings.max_call_attempts) w.db.borrowers
        → All (IsSpent e.settings.max_call_attempts) (run e jobs w).db.borrowers
    run-exhausted-IsSpent = exhausted-IsSpent (run-Reach jobs w)

    -- In an environment as `IsEnv` assumes, a stored campaign stays stored with its provider, its
    -- cap on concurrent calls and its baseline answer rate through any jobs, of operators too.
    pub run-campaign_fixed :
        (id : ℕ) (a : Campaign)
        → find_campaign id w.db ≡ some a
        → (b : Campaign) × (find_campaign id (run e jobs w).db ≡ some b)
          × (b.provider_name ≡ a.provider_name)
          × (b.max_concurrent_calls ≡ a.max_concurrent_calls)
          × (b.baseline_answer_rate ≡ a.baseline_answer_rate)
    run-campaign_fixed id a stored = campaign_fixed id (run-Reach jobs w) stored

    -- In an environment as `IsEnv` assumes, if each agent's time in calls and in wrap-up is part of
    -- its busy time, then the agents that are found for a campaign after any jobs, as a collection of
    -- its metrics reads them, are the campaign's own; and its utilization, which is computed from
    -- them at any time, has no more time in calls than productive time, and no more productive time
    -- than counted time.
    pub run-utilization :
        (campaign_id limit t : ℕ)
        → All IsAccounted w.db.agents
        → IsUtilized e.floats campaign_id t (find_for_campaign e campaign_id limit (run e jobs w)).0
    run-utilization campaign_id limit t accounted =
        find_for_campaign-IsUtilized e law campaign_id limit t (run e jobs w)
          (agents-IsAccounted (run-Reach jobs w) accounted)
