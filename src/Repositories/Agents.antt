-- ===== src/Repositories/Agents.antt =====
-- app/repositories/agent_repo.py
use smart_dialer.Base.{
  count_if, ℕ, ◌+◌, ◌-◌, Bool, true, Option, none, some, List, [], ◌∷◌, ◌==◌, ◌&&◌, not, leb,
  before, is_some, holds_value, contains, if◌then◌else◌,
}
use smart_dialer.Model.{Agent}
use smart_dialer.Model.Enums.{AgentState, same_agent_state}
use smart_dialer.Settings.{seconds}
use smart_dialer.StateMachines.Agent.{
  TransitionActor, Validation, validate_transition, allowed_sources, is_claimable,
}
use smart_dialer.Store.{unsorted, ascending}
use smart_dialer.World.{Action, Env, ◌>>=◌, pure, raise, now, query, write_agents}
use smart_dialer.Repositories.Leases.{candidate_window}

-- `time_accounting_updates`; a difference below 0 counts as 0
abbrev pub time_accounting_updates : AgentState → ℕ → Agent → Agent
time_accounting_updates AgentState.available t d = record d {
  available_time_ms = d.available_time_ms + (t - d.state_changed_at);
}
time_accounting_updates AgentState.reserved t d = record d {
  busy_time_ms = d.busy_time_ms + (t - d.state_changed_at);
}
time_accounting_updates AgentState.dialing t d = record d {
  busy_time_ms = d.busy_time_ms + (t - d.state_changed_at);
}
time_accounting_updates AgentState.connected t d = record d {
  busy_time_ms = d.busy_time_ms + (t - d.state_changed_at);
  connected_time_ms = d.connected_time_ms + (t - d.state_changed_at);
}
time_accounting_updates AgentState.wrap_up t d = record d {
  busy_time_ms = d.busy_time_ms + (t - d.state_changed_at);
  wrap_up_time_ms = d.wrap_up_time_ms + (t - d.state_changed_at);
}
time_accounting_updates _ t d = d

-- `_conditional_accounting`: the branch of the state that the document has
abbrev pub conditional_accounting : List AgentState → ℕ → Agent → Agent
conditional_accounting sources t d =
    if contains same_agent_state d.state sources then time_accounting_updates d.state t d else d

abbrev pub clear_lease : Agent → Agent
clear_lease d = record d { reserved_by = none; reserved_at = none; lease_expires_at = none }

-- the update of `try_reserve_agent`
unfoldable pub reserved_agent : ℕ → ℕ → ℕ → Agent → Agent
reserved_agent worker ttl t d = record d {
  state = AgentState.reserved;
  state_changed_at = t;
  reserved_by = some worker;
  reserved_at = some t;
  lease_expires_at = some (t + seconds ttl);
  state_version = d.state_version + 1;
}

-- the update of `release_agent`
unfoldable pub released_agent : List AgentState → AgentState → ℕ → Agent → Agent
released_agent sources target t d = record (clear_lease (conditional_accounting sources t d)) {
  state = target;
  state_changed_at = t;
  current_call_id = none;
  state_version = d.state_version + 1;
}

-- the update of `transition_agent`
unfoldable pub transitioned_agent : AgentState → AgentState → ℕ → Agent → Agent
transitioned_agent from_state to_state t d = record (time_accounting_updates from_state t d) {
  state = to_state;
  state_changed_at = t;
  state_version = d.state_version + 1;
}

-- the update of `release_expired_agent_lease`
unfoldable pub reclaimed_agent : ℕ → Agent → Agent
reclaimed_agent t d = record (clear_lease d) {
  state = AgentState.available;
  state_changed_at = t;
  current_call_id = none;
  state_version = d.state_version + 1;
}

-- the filter of `find_expired_agent_leases` and `count_expired_leases`
abbrev pub has_expired_lease : ℕ → Agent → Bool
has_expired_lease t d =
    contains same_agent_state d.state
      (allowed_sources AgentState.available TransitionActor.recovery)
    && is_some d.reserved_by
    && before d.lease_expires_at t

module _ {F : Type 0} (e : Env F) where
  unfoldable pub try_reserve_agent : ℕ → ℕ → ℕ → ℕ → Action (Option Agent)
  try_reserve_agent campaign_id agent_id worker_id ttl = do
    t ← now e
    write_agents e λ n.
        e.agents_db.find_one_and_update n
          (λ d. d.id == agent_id && d.campaign_id == campaign_id && is_claimable d.state)
          (reserved_agent worker_id ttl t)

  unfoldable pub find_claimable_agents : ℕ → ℕ → Action (List Agent)
  find_claimable_agents campaign_id needed =
      if candidate_window needed == 0
      then pure []
      else query e λ n db.
        e.agents_db.find n (λ d. d.campaign_id == campaign_id && is_claimable d.state)
          (ascending (λ d. d.state_changed_at)) (candidate_window needed) db.agents

  -- `release_agent` with its sources: the early return, and the request
  unfoldable pub release_from : List AgentState → ℕ → ℕ → AgentState → Action (Option Agent)
  release_from [] agent_id worker_id target_state = pure none
  release_from (s ∷ rest) agent_id worker_id target_state = do
    t ← now e
    write_agents e λ n.
        e.agents_db.find_one_and_update n
          (λ d.
            d.id == agent_id
            && holds_value d.reserved_by worker_id
            && contains same_agent_state d.state (s ∷ rest))
          (released_agent (s ∷ rest) target_state t)

  unfoldable pub release_agent : ℕ → ℕ → AgentState → TransitionActor → Action (Option Agent)
  unfolding release_from
  release_agent agent_id worker_id target_state actor =
      release_from (allowed_sources target_state actor) agent_id worker_id target_state

  -- what follows `validate_transition`, which may raise
  unfoldable pub transition_validated :
      Validation → ℕ → AgentState → AgentState → ℕ → Action (Option Agent)
  transition_validated (Validation.refused x) agent_id from_state to_state version = raise x
  transition_validated Validation.valid agent_id from_state to_state version = do
    t ← now e
    write_agents e λ n.
        e.agents_db.find_one_and_update n
          (λ d.
            d.id == agent_id && same_agent_state d.state from_state && d.state_version == version)
          (transitioned_agent from_state to_state t)

  unfoldable pub transition_agent :
      ℕ → AgentState → AgentState → TransitionActor → ℕ → Action (Option Agent)
  unfolding transition_validated
  transition_agent agent_id from_state to_state actor version =
      transition_validated (validate_transition from_state to_state actor) agent_id from_state
        to_state version

  unfoldable pub bind_call : ℕ → ℕ → ℕ → Action (Option Agent)
  bind_call agent_id worker_id call_id = write_agents e λ n.
      e.agents_db.find_one_and_update n
        (λ d. d.id == agent_id && holds_value d.reserved_by worker_id)
        (λ d. record d { current_call_id = some call_id })

  -- the dictionary that is returned, by its entries
  unfoldable pub count_by_state : ℕ → Action (AgentState → ℕ)
  count_by_state campaign_id = do
    documents ←
        query e λ n db. e.agents_db.aggregate n (λ d. d.campaign_id == campaign_id) db.agents
    pure (λ state. count_if (λ (d : Agent). same_agent_state d.state state) documents)

  unfoldable pub find_expired_agent_leases : ℕ → ℕ → Action (List Agent)
  find_expired_agent_leases t limit =
      query e λ n db. e.agents_db.find n (has_expired_lease t) unsorted limit db.agents

  unfoldable pub release_expired_agent_lease : Agent → ℕ → Action (Option Agent)
  release_expired_agent_lease agent t = write_agents e λ n.
      e.agents_db.find_one_and_update n
        (λ d.
          d.id == agent.id
          && same_agent_state d.state agent.state
          && d.state_version == agent.state_version
          && before d.lease_expires_at t)
        (reclaimed_agent t)

  unfoldable pub find_heartbeat_expired : ℕ → ℕ → Action (List Agent)
  find_heartbeat_expired older_than limit = query e λ n db.
      e.agents_db.find n
        (λ d.
          not (same_agent_state d.state AgentState.offline)
          && before d.last_heartbeat_at older_than)
        unsorted limit db.agents

  -- `campaign_id` is left out by the recovery sweep
  unfoldable pub find_expired_wrap_ups : ℕ → ℕ → Option ℕ → Action (List Agent)
  find_expired_wrap_ups older_than limit campaign_id = query e λ n db.
      e.agents_db.find n
        (λ d.
          same_agent_state d.state AgentState.wrap_up
          && leb d.state_changed_at older_than
          && elim campaign_id [ none ↦ true | some c ↦ d.campaign_id == c ])
        (ascending (λ d. d.state_changed_at)) limit db.agents

  unfoldable pub count_expired_leases : ℕ → Action ℕ
  count_expired_leases t =
      query e λ n db. e.agents_db.count_documents n (has_expired_lease t) db.agents

  unfoldable pub count_connected_longer_than : ℕ → ℕ → Action ℕ
  count_connected_longer_than campaign_id older_than = query e λ n db.
      e.agents_db.count_documents n
        (λ d.
          d.campaign_id == campaign_id
          && same_agent_state d.state AgentState.connected
          && leb d.state_changed_at older_than)
        db.agents

  unfoldable pub find_for_campaign : ℕ → ℕ → Action (List Agent)
  find_for_campaign campaign_id limit =
      query e
        λ n db. e.agents_db.find n (λ d. d.campaign_id == campaign_id) unsorted limit db.agents

  unfoldable pub find_agent_by_id : ℕ → Action (Option Agent)
  find_agent_by_id agent_id =
      query e λ n db. e.agents_db.find_one n (λ d. d.id == agent_id) db.agents

  -- the returned flag says whether a document matched
  unfoldable pub heartbeat : ℕ → Action Bool
  heartbeat agent_id = do
    t ← now e
    updated ← write_agents e λ n.
        e.agents_db.find_one_and_update n (λ d. d.id == agent_id)
          (λ d. record d { last_heartbeat_at = some t })
    pure (is_some updated)
