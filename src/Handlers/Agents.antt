-- ===== src/Handlers/Agents.antt =====
-- The end of a wrap-up, and the actions of the agents themselves.
use smart_dialer.Lifecycle.Moves.{retry_policy}
use smart_dialer.Lifecycle.Steps.{RetryPolicy}
use smart_dialer.Base.{ℕ, ◌≡◌, false, Option, none, some, refl, arith}
use smart_dialer.Model.{Agent}
use smart_dialer.Model.Enums.{AgentState}
use smart_dialer.World.{Env}
use smart_dialer.Repositories.Agents.{find_agent_by_id, find_expired_wrap_ups}
use smart_dialer.Workers.WrapUp.{
  AgentAction, agent_action_target, find_finished_wrap_ups, release_finished_wrap_ups, after_action,
  act_on, act_on_found, agent_action,
}
use smart_dialer.Handlers.Recovery.{Moves-end_wrap_ups}
use smart_dialer.Lifecycle.Steps.{needs_lease}
use smart_dialer.Lifecycle.Agents.{Moves-transition_agent, Moves-heartbeat}
use smart_dialer.Lifecycle.Moves.{IsEnv, Moves, moves_rules, Moves-bind, Moves-now, Moves-query}

module _ {F : Type 0} (e : Env F) (law : IsEnv e) where
  abbrev k : RetryPolicy
  k = retry_policy e

  pub Moves-release_finished_wrap_ups :
      (campaign_id : ℕ) → Moves k (release_finished_wrap_ups e campaign_id)
  unfolding release_finished_wrap_ups find_finished_wrap_ups find_expired_wrap_ups
  Moves-release_finished_wrap_ups campaign_id =
      Moves-bind _ _ (Moves-bind _ _ (Moves-now e law) (λ t. Moves-query e law _))
        (λ agents. Moves-end_wrap_ups e law _ _ agents)

  Moves-after_action :
      (action : AgentAction) (agent_id : ℕ) (o : Option Agent)
      → Moves k (after_action e action agent_id o)
  unfolding after_action find_agent_by_id
  Moves-after_action AgentAction.login agent_id (some updated) =
      search (moves_rules, Moves-heartbeat e law, Moves-query e law)
  Moves-after_action _ agent_id _ = search moves_rules

  -- no agent reserves itself
  target_free :
      (action : AgentAction) (s : AgentState)
      → agent_action_target action ≡ some s
      → needs_lease s ≡ false
  target_free action s h = ground arith

  Moves-act_on :
      (action : AgentAction) (target : Option AgentState) (agent : Agent)
      → agent_action_target action ≡ target
      → Moves k (act_on e action target agent)
  unfolding act_on find_agent_by_id
  Moves-act_on action none agent h = search (moves_rules, Moves-heartbeat e law, Moves-query e law)
  Moves-act_on action (some target) agent h =
      Moves-bind _ _
        (Moves-transition_agent e law _ _ _ _ _ (λ _ leased. cc (target_free action target h)))
        (λ updated. Moves-after_action action _ updated)

  Moves-act_on_found : (action : AgentAction) (o : Option Agent) → Moves k (act_on_found e action o)
  unfolding act_on_found
  Moves-act_on_found action none = search moves_rules
  Moves-act_on_found action (some agent) = Moves-act_on action _ agent refl

  pub Moves-agent_action :
      (agent_id : ℕ) (action : AgentAction) → Moves k (agent_action e agent_id action)
  unfolding agent_action find_agent_by_id
  Moves-agent_action agent_id action =
      Moves-bind _ _ (Moves-query e law _) (λ agent. Moves-act_on_found action agent)
