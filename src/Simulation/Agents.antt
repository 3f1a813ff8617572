-- ===== src/Simulation/Agents.antt =====
-- app/simulation/agent_simulator.py
use smart_dialer.Base.{
  ℕ, ◌+◌, Bool, true, false, Option, none, some, List, [], ◌∷◌, leb, if◌then◌else◌,
}
use smart_dialer.Model.{Agent}
use smart_dialer.Model.Enums.{AgentState, same_agent_state}
use smart_dialer.StateMachines.Agent.{TransitionActor}
use smart_dialer.Metrics.Campaign.{agents_limit}
use smart_dialer.Repositories.Agents.{find_for_campaign, transition_agent, heartbeat}
use smart_dialer.World.{Action, Env, ◌>>=◌, ◌>>◌, pure}

module _ {F : Type 0} (e : Env F) where
  unfoldable pub beat_if_moved : ℕ → Agent → Option Agent → Action ℕ
  beat_if_moved logged_in agent none = pure logged_in
  beat_if_moved logged_in agent (some updated) = do heartbeat e agent.id; pure (logged_in + 1)

  unfoldable pub log_in_offline : ℕ → Agent → Bool → Action ℕ
  unfolding beat_if_moved
  log_in_offline logged_in agent false = pure logged_in
  log_in_offline logged_in agent true = do
    updated ←
        transition_agent e agent.id AgentState.offline AgentState.available TransitionActor.agent
          agent.state_version
    beat_if_moved logged_in agent updated

  unfoldable pub log_in_each : ℕ → List Agent → Action ℕ
  unfolding log_in_offline
  log_in_each logged_in [] = pure logged_in
  log_in_each logged_in (agent ∷ agents) = do
    now_logged_in ← log_in_offline logged_in agent (same_agent_state agent.state AgentState.offline)
    log_in_each now_logged_in agents

  unfoldable pub log_everyone_in : (campaign_id : ℕ) → Action ℕ
  unfolding log_in_each
  log_everyone_in campaign_id = do
    agents ← find_for_campaign e campaign_id agents_limit
    log_in_each 0 agents

  abbrev count_moved : ℕ → Option Agent → ℕ
  count_moved removed none = removed
  count_moved removed (some updated) = removed + 1

  unfoldable pub take_offline : ℕ → Agent → Bool → Action ℕ
  take_offline removed agent false = pure removed
  take_offline removed agent true = do
    updated ←
        transition_agent e agent.id AgentState.available AgentState.offline TransitionActor.agent
          agent.state_version
    pure (count_moved removed updated)

  -- the loop of `take_agents_offline`, which stops once enough are removed
  unfoldable pub take_offline_each : (count removed : ℕ) → List Agent → Action ℕ
  unfolding take_offline
  take_offline_each count removed [] = pure removed
  take_offline_each count removed (agent ∷ agents) =
      let rest : ℕ → Action ℕ = λ n. take_offline_each count n agents in
      if leb count removed
      then pure removed
      else take_offline removed agent (same_agent_state agent.state AgentState.available) >>= rest

  unfoldable pub take_agents_offline : (campaign_id count : ℕ) → Action ℕ
  unfolding take_offline_each
  take_agents_offline campaign_id count = do
    agents ← find_for_campaign e campaign_id agents_limit
    take_offline_each count 0 agents

  unfoldable pub beat_each : List Agent → Action (Unit {0})
  beat_each [] = pure tt
  beat_each (agent ∷ agents) = do
    (if same_agent_state agent.state AgentState.offline then pure false else heartbeat e agent.id)
    beat_each agents

  -- one round of `_heartbeat_loop`
  unfoldable pub heartbeat_round : (campaign_id : ℕ) → Action (Unit {0})
  unfolding beat_each
  heartbeat_round campaign_id = do
    agents ← find_for_campaign e campaign_id agents_limit
    beat_each agents
