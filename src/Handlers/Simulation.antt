-- ===== src/Handlers/Simulation.antt =====
-- The simulated agents and the injected faults.
use smart_dialer.Lifecycle.Moves.{retry_policy}
use smart_dialer.Lifecycle.Steps.{RetryPolicy}
use smart_dialer.Base.{ℕ, Bool, true, false, Option, none, some, List, [], ◌∷◌, arith}
use smart_dialer.Model.{Agent}
use smart_dialer.Model.Enums.{AgentState}
use smart_dialer.StateMachines.Agent.{TransitionActor}
use smart_dialer.Repositories.Agents.{find_for_campaign}
use smart_dialer.Repositories.Events.{
  ProviderEvent, find_for_call, find_latest, find_provider_events_for_call,
}
use smart_dialer.Simulation.Agents.{
  beat_if_moved, log_in_offline, log_in_each, log_everyone_in, take_offline, take_offline_each,
  take_agents_offline, beat_each, heartbeat_round,
}
use smart_dialer.Simulation.Faults.{
  replayable_events, process_each, duplicate_event_burst, out_of_order_burst,
  agent_availability_drop,
}
use smart_dialer.Handlers.Events.{Moves-process_event}
use smart_dialer.Lifecycle.Agents.{Moves-transition_agent, Moves-heartbeat}
use smart_dialer.World.{Env}
use smart_dialer.Lifecycle.Moves.{IsEnv, Moves, Moves-pure, Moves-if, Moves-bind, Moves-query}

module _ {F : Type 0} (e : Env F) (law : IsEnv e) where
  abbrev k : RetryPolicy
  k = retry_policy e

  Moves-beat_if_moved :
      (logged_in : ℕ) (agent : Agent) (updated : Option Agent)
      → Moves k (beat_if_moved e logged_in agent updated)
  unfolding beat_if_moved
  Moves-beat_if_moved logged_in agent none = Moves-pure _
  Moves-beat_if_moved logged_in agent (some updated) =
      Moves-bind _ _ (Moves-heartbeat e law _) (λ _. Moves-pure _)

  Moves-log_in_offline :
      (logged_in : ℕ) (agent : Agent) (offline : Bool)
      → Moves k (log_in_offline e logged_in agent offline)
  unfolding log_in_offline
  Moves-log_in_offline logged_in agent false = Moves-pure _
  Moves-log_in_offline logged_in agent true =
      Moves-bind _ _
        (Moves-transition_agent e law agent.id AgentState.offline AgentState.available
          TransitionActor.agent agent.state_version (λ valid leased. ground (arith, leased)))
        (λ updated. Moves-beat_if_moved logged_in agent updated)

  Moves-log_in_each :
      (logged_in : ℕ) (agents : List Agent) → Moves k (log_in_each e logged_in agents)
  unfolding log_in_each
  Moves-log_in_each logged_in [] = Moves-pure _
  Moves-log_in_each logged_in (agent ∷ agents) =
      Moves-bind _ _ (Moves-log_in_offline logged_in agent _) (λ n. Moves-log_in_each n agents)

  pub Moves-log_everyone_in : (campaign_id : ℕ) → Moves k (log_everyone_in e campaign_id)
  unfolding log_everyone_in find_for_campaign
  Moves-log_everyone_in campaign_id =
      Moves-bind _ _ (Moves-query e law _) (λ agents. Moves-log_in_each 0 agents)

  Moves-take_offline :
      (removed : ℕ) (agent : Agent) (available : Bool)
      → Moves k (take_offline e removed agent available)
  unfolding take_offline
  Moves-take_offline removed agent false = Moves-pure _
  Moves-take_offline removed agent true =
      Moves-bind _ _
        (Moves-transition_agent e law agent.id AgentState.available AgentState.offline
          TransitionActor.agent agent.state_version (λ valid leased. ground (arith, leased)))
        (λ updated. Moves-pure _)

  Moves-take_offline_each :
      (count removed : ℕ) (agents : List Agent) → Moves k (take_offline_each e count removed agents)
  unfolding take_offline_each
  Moves-take_offline_each count removed [] = Moves-pure _
  Moves-take_offline_each count removed (agent ∷ agents) = Moves-if _ _ _ (Moves-pure _) (
      Moves-bind _ _ (Moves-take_offline removed agent _)
        (λ n. Moves-take_offline_each count n agents))

  pub Moves-take_agents_offline :
      (campaign_id count : ℕ) → Moves k (take_agents_offline e campaign_id count)
  unfolding take_agents_offline find_for_campaign
  Moves-take_agents_offline campaign_id count =
      Moves-bind _ _ (Moves-query e law _) (λ agents. Moves-take_offline_each count 0 agents)

  Moves-beat_each : (agents : List Agent) → Moves k (beat_each e agents)
  unfolding beat_each
  Moves-beat_each [] = Moves-pure _
  Moves-beat_each (agent ∷ agents) =
      Moves-bind _ _ (Moves-if _ _ _ (Moves-pure _) (Moves-heartbeat e law _))
        (λ _. Moves-beat_each agents)

  pub Moves-heartbeat_round : (campaign_id : ℕ) → Moves k (heartbeat_round e campaign_id)
  unfolding heartbeat_round find_for_campaign
  Moves-heartbeat_round campaign_id =
      Moves-bind _ _ (Moves-query e law _) (λ agents. Moves-beat_each agents)

  Moves-replayable_events :
      (provider_call_id : Option ℕ) → Moves k (replayable_events e provider_call_id)
  unfolding replayable_events find_latest find_provider_events_for_call find_for_call
  Moves-replayable_events none = Moves-bind _ _ (Moves-query e law _) (λ _. Moves-pure _)
  Moves-replayable_events (some p) = Moves-bind _ _ (Moves-query e law _) (λ _. Moves-pure _)

  Moves-process_each : (events : List ProviderEvent) → Moves k (process_each e events)
  unfolding process_each
  Moves-process_each [] = Moves-pure _
  Moves-process_each (event ∷ events) =
      Moves-bind _ _ (Moves-process_event e law event) (λ _. Moves-process_each events)

  pub Moves-duplicate_event_burst :
      (provider_call_id : Option ℕ) → Moves k (duplicate_event_burst e provider_call_id)
  unfolding duplicate_event_burst
  Moves-duplicate_event_burst provider_call_id =
      Moves-bind _ _ (Moves-replayable_events provider_call_id)
        λ events. Moves-bind _ _ (Moves-process_each _) (λ _. Moves-pure _)

  pub Moves-out_of_order_burst :
      (provider_call_id : Option ℕ) → Moves k (out_of_order_burst e provider_call_id)
  unfolding out_of_order_burst
  Moves-out_of_order_burst provider_call_id =
      Moves-bind _ _ (Moves-replayable_events provider_call_id)
        λ events. Moves-bind _ _ (Moves-process_each _) (λ _. Moves-pure _)

  pub Moves-agent_availability_drop :
      (campaign_id count : ℕ) → Moves k (agent_availability_drop e campaign_id count)
  unfolding agent_availability_drop
  Moves-agent_availability_drop campaign_id count =
      Moves-bind _ _ (Moves-take_agents_offline campaign_id count) (λ _. Moves-pure _)
