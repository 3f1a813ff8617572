-- ===== src/Workers/WrapUp.antt =====
-- app/services/wrap_up_service.py and `_release_finished_wrap_ups` of app/workers/dialer_worker.py,
-- and the changes of an agent's state that app/api/routes_agents.py makes.
use smart_dialer.Base.{ℕ, ◌-◌, Option, none, some, List}
use smart_dialer.Model.{Agent}
use smart_dialer.Model.Enums.{AgentState}
use smart_dialer.Settings.{seconds}
use smart_dialer.StateMachines.Agent.{TransitionActor}
use smart_dialer.Repositories.Agents.{
  find_expired_wrap_ups, find_agent_by_id, transition_agent, heartbeat,
}
use smart_dialer.Workers.Recovery.{end_wrap_ups}
use smart_dialer.World.{Action, Env, ◌>>=◌, ◌>>◌, pure, now}

-- WRAP_UP_SWEEP_LIMIT
abbrev pub wrap_up_sweep_limit : ℕ
wrap_up_sweep_limit = 500

-- AGENT_ACTIONS, and the heartbeat, which has a branch of its own
pub data AgentAction : Type 0 where
  login logout pause resume beat : AgentAction

abbrev pub agent_action_target : AgentAction → Option AgentState
agent_action_target AgentAction.login = some AgentState.available
agent_action_target AgentAction.logout = some AgentState.offline
agent_action_target AgentAction.pause = some AgentState.paused
agent_action_target AgentAction.resume = some AgentState.available
agent_action_target AgentAction.beat = none

module _ {F : Type 0} (e : Env F) where
  unfoldable pub find_finished_wrap_ups : ℕ → Action (List Agent)
  find_finished_wrap_ups campaign_id = do
    t ← now e
    find_expired_wrap_ups e (t - seconds e.settings.wrap_up_seconds) wrap_up_sweep_limit
        (some campaign_id)

  unfoldable pub release_finished_wrap_ups : ℕ → Action ℕ
  unfolding find_finished_wrap_ups
  release_finished_wrap_ups campaign_id = do
    agents ← find_finished_wrap_ups campaign_id
    end_wrap_ups e TransitionActor.worker_timer 0 agents

  -- after the transition: a login beats the heart too
  unfoldable pub after_action : AgentAction → ℕ → Option Agent → Action (Option Agent)
  after_action AgentAction.login agent_id (some updated) = do
    heartbeat e agent_id
    find_agent_by_id e agent_id
  after_action action agent_id updated = pure updated

  unfoldable pub act_on : AgentAction → Option AgentState → Agent → Action (Option Agent)
  unfolding after_action
  act_on action none agent = do heartbeat e agent.id; find_agent_by_id e agent.id
  act_on action (some target) agent = do
    updated ←
        transition_agent e agent.id agent.state target TransitionActor.agent agent.state_version
    after_action action agent.id updated

  unfoldable pub act_on_found : AgentAction → Option Agent → Action (Option Agent)
  unfolding act_on
  act_on_found action none = pure none
  act_on_found action (some agent) = act_on action (agent_action_target action) agent

  -- `agent_action`; the answers 404 and 409 are both None here
  unfoldable pub agent_action : ℕ → AgentAction → Action (Option Agent)
  unfolding act_on_found
  agent_action agent_id action = do agent ← find_agent_by_id e agent_id; act_on_found action agent
