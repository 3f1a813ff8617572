-- ===== src/Lifecycle/Agents.antt =====
-- The operations of app/repositories/agent_repo.py stay within the specification.
use smart_dialer.Lifecycle.Moves.{retry_policy}
use smart_dialer.Lifecycle.Steps.{RetryPolicy}
use smart_dialer.Base.{
  ℕ, ◌≤◌, ◌≡◌, refl, sym, true, false, List, [], ◌∷◌, Bool-cases, inl, inr, &&_left, &&_right,
  contains, arith,
}
use mathlib.Core.Path.{subst}
use smart_dialer.Model.{Agent}
use smart_dialer.Model.Enums.{AgentState, same_agent_state, same_agent_state→≡}
use smart_dialer.StateMachines.Agent.{
  TransitionActor, Validation, validate_transition, allowed_sources,
}
use smart_dialer.StateMachines.Agent.Sources.{allowed_sources-validate}
use smart_dialer.World.{Env}
use smart_dialer.Repositories.Agents.{
  time_accounting_updates, conditional_accounting, reserved_agent, released_agent,
  transitioned_agent, reclaimed_agent, try_reserve_agent, find_claimable_agents, release_from,
  release_agent, transition_validated, transition_agent, bind_call, heartbeat,
  release_expired_agent_lease,
}
use smart_dialer.Lifecycle.Steps.{AgentStep, AgentProgress, needs_lease, IsAccounted}
use smart_dialer.Lifecycle.Moves.{
  IsEnv, Moves, Moves-pure, Moves-raise, Moves-if, Moves-bind, Moves-now, Moves-query,
  Moves-write_agents,
}

reserved_agent-Step :
    (worker ttl t : ℕ) (d : Agent)
    → d.state ≡ AgentState.available
    → AgentStep d (reserved_agent worker ttl t d)
unfolding reserved_agent validate_transition
reserved_agent-Step worker ttl t d is_available = record {
  same_id = refl;
  same_campaign = refl;
  progress = AgentProgress.moved TransitionActor.allocator (ground arith) (omega arith);
  lease = λ _ _. (refl, refl);
  busy = omega arith;
  connected = omega arith;
  accounted = λ h. h;
}

-- The accounts of time only grow, and nothing else changes.
record Accounted (d d' : Agent) : Type 0 where
  same_id : d'.id ≡ d.id
  same_campaign : d'.campaign_id ≡ d.campaign_id
  same_version : d'.state_version ≡ d.state_version
  same_worker : d'.reserved_by ≡ d.reserved_by
  same_expiry : d'.lease_expires_at ≡ d.lease_expires_at
  busy : d.busy_time_ms ≤ d'.busy_time_ms
  connected : d.connected_time_ms ≤ d'.connected_time_ms
  accounted : IsAccounted d → IsAccounted d'

time_accounting : (s : AgentState) (t : ℕ) (d : Agent) → Accounted d (time_accounting_updates s t d)
time_accounting AgentState.offline t d = ground arith
time_accounting _ t d = ground arith

conditional :
    (sources : List AgentState) (t : ℕ) (d : Agent)
    → Accounted d (conditional_accounting sources t d)
conditional sources t d = elim (Bool-cases (contains same_agent_state d.state sources)) [
  | inl e ↦ rw e (time_accounting d.state t d)
  | inr e ↦ rw e (ground arith)
]

transitioned_agent-Step :
    (from_state to_state : AgentState) (actor : TransitionActor) (t : ℕ) (d : Agent)
    → d.state ≡ from_state
    → validate_transition from_state to_state actor ≡ Validation.valid
    → (needs_lease to_state ≡ true → needs_lease from_state ≡ true)
    → AgentStep d (transitioned_agent from_state to_state t d)
unfolding transitioned_agent
transitioned_agent-Step from_state to_state actor t d same valid leased =
    let a = time_accounting from_state t d in
    record {
      same_id = a.same_id;
      same_campaign = a.same_campaign;
      progress = AgentProgress.moved actor (rw same valid) (omega arith);
      lease = λ h n. rw (a.same_worker, a.same_expiry) (h (rw same (leased n)));
      busy = a.busy;
      connected = a.connected;
      accounted = a.accounted;
    }

released_agent-Step :
    (sources : List AgentState) (target : AgentState) (actor : TransitionActor) (t : ℕ) (d : Agent)
    → validate_transition d.state target actor ≡ Validation.valid
    → needs_lease target ≡ false
    → AgentStep d (released_agent sources target t d)
unfolding released_agent
released_agent-Step sources target actor t d valid free =
    let a = conditional sources t d in
    record {
      same_id = a.same_id;
      same_campaign = a.same_campaign;
      progress = AgentProgress.moved actor valid (omega arith);
      lease = λ h n. cc;
      busy = a.busy;
      connected = a.connected;
      accounted = a.accounted;
    }

reclaimed_agent-Step :
    (t : ℕ) (d : Agent)
    → validate_transition d.state AgentState.available TransitionActor.recovery ≡ Validation.valid
    → AgentStep d (reclaimed_agent t d)
unfolding reclaimed_agent
reclaimed_agent-Step t d valid = record {
  same_id = refl;
  same_campaign = refl;
  progress = AgentProgress.moved TransitionActor.recovery valid (omega arith);
  lease = λ h n. cc;
  busy = omega arith;
  connected = omega arith;
  accounted = λ h. h;
}

-- A field that no state machine owns is written.
unowned-Step :
    (d d' : Agent)
    → d'.id ≡ d.id
    → d'.campaign_id ≡ d.campaign_id
    → d'.state ≡ d.state
    → d'.state_version ≡ d.state_version
    → d'.reserved_by ≡ d.reserved_by
    → d'.lease_expires_at ≡ d.lease_expires_at
    → d'.busy_time_ms ≡ d.busy_time_ms
    → d'.connected_time_ms ≡ d.connected_time_ms
    → d'.wrap_up_time_ms ≡ d.wrap_up_time_ms
    → AgentStep d d'
unowned-Step d d' i c s v w x b t q = record {
  same_id = i;
  same_campaign = c;
  progress = AgentProgress.kept s v;
  lease = λ h n. rw (w, x) (h (rw (sym s) n));
  busy = omega arith;
  connected = omega arith;
  accounted = λ h. omega (arith, h);
}

module _ {F : Type 0} (e : Env F) (law : IsEnv e) where
  abbrev k : RetryPolicy
  k = retry_policy e

  pub Moves-try_reserve_agent :
      (campaign_id agent_id worker_id ttl : ℕ)
      → Moves k (try_reserve_agent e campaign_id agent_id worker_id ttl)
  unfolding try_reserve_agent
  Moves-try_reserve_agent campaign_id agent_id worker_id ttl = Moves-bind _ _ (Moves-now e law) λ t.
      Moves-write_agents e law _ _
        λ d fit. reserved_agent-Step worker_id ttl t d (same_agent_state→≡ _ _ (&&_right _ _ fit))

  pub Moves-find_claimable_agents :
      (campaign_id needed : ℕ) → Moves k (find_claimable_agents e campaign_id needed)
  unfolding find_claimable_agents
  Moves-find_claimable_agents campaign_id needed = search (Moves-if, Moves-pure, Moves-query e law)

  Moves-release_from :
      (sources : List AgentState) (agent_id worker_id : ℕ) (target : AgentState)
      (actor : TransitionActor)
      → sources ≡ allowed_sources target actor
      → needs_lease target ≡ false
      → Moves k (release_from e sources agent_id worker_id target)
  unfolding release_from
  Moves-release_from [] agent_id worker_id target actor eq free = Moves-pure _
  Moves-release_from (s ∷ rest) agent_id worker_id target actor eq free =
      Moves-bind _ _ (Moves-now e law) λ t. Moves-write_agents e law _ _ λ d fit.
        released_agent-Step (s ∷ rest) target actor t d
          ((allowed_sources-validate d.state target actor).0
            (subst (λ l. contains same_agent_state d.state l ≡ true) eq (&&_right _ _ fit)))
          free

  pub Moves-release_agent :
      (agent_id worker_id : ℕ) (target : AgentState) (actor : TransitionActor)
      → needs_lease target ≡ false
      → Moves k (release_agent e agent_id worker_id target actor)
  unfolding release_agent
  Moves-release_agent agent_id worker_id target actor free =
      Moves-release_from _ agent_id worker_id target actor refl free

  Moves-transition_validated :
      (v : Validation) (agent_id : ℕ) (from_state to_state : AgentState) (actor : TransitionActor)
      (version : ℕ)
      → v ≡ validate_transition from_state to_state actor
      → (validate_transition from_state to_state actor ≡ Validation.valid
          → needs_lease to_state ≡ true
          → needs_lease from_state ≡ true)
      → Moves k (transition_validated e v agent_id from_state to_state version)
  unfolding transition_validated
  Moves-transition_validated (Validation.refused x) agent_id from_state to_state actor version eq
        h =
      Moves-raise x
  Moves-transition_validated Validation.valid agent_id from_state to_state actor version eq h =
      Moves-bind _ _ (Moves-now e law) λ t. Moves-write_agents e law _ _ λ d fit.
        transitioned_agent-Step from_state to_state actor t d
          (same_agent_state→≡ _ _ (&&_right _ _ (&&_left _ _ fit))) (sym eq) (h (sym eq))

  pub Moves-transition_agent :
      (agent_id : ℕ) (from_state to_state : AgentState) (actor : TransitionActor) (version : ℕ)
      → (validate_transition from_state to_state actor ≡ Validation.valid
          → needs_lease to_state ≡ true
          → needs_lease from_state ≡ true)
      → Moves k (transition_agent e agent_id from_state to_state actor version)
  unfolding transition_agent
  Moves-transition_agent agent_id from_state to_state actor version h =
      Moves-transition_validated _ agent_id from_state to_state actor version refl h

  pub Moves-bind_call :
      (agent_id worker_id call_id : ℕ) → Moves k (bind_call e agent_id worker_id call_id)
  unfolding bind_call
  Moves-bind_call agent_id worker_id call_id =
      Moves-write_agents e law _ _
        λ d fit. unowned-Step d _ refl refl refl refl refl refl refl refl refl

  pub Moves-heartbeat : (agent_id : ℕ) → Moves k (heartbeat e agent_id)
  unfolding heartbeat
  Moves-heartbeat agent_id = Moves-bind _ _ (Moves-now e law) λ t.
      Moves-bind _ _
        (Moves-write_agents e law _ _
          λ d fit. unowned-Step d _ refl refl refl refl refl refl refl refl refl)
        λ _. Moves-pure _

  -- A lease is reclaimed from a state that recovery may release.
  pub Moves-release_expired_agent_lease :
      (agent : Agent) (t : ℕ)
      → validate_transition agent.state AgentState.available TransitionActor.recovery
        ≡ Validation.valid
      → Moves k (release_expired_agent_lease e agent t)
  unfolding release_expired_agent_lease
  Moves-release_expired_agent_lease agent t valid = Moves-write_agents e law _ _ λ d fit.
      let same : d.state ≡ agent.state =
        same_agent_state→≡ d.state agent.state (&&_right _ _ (&&_left _ _ (&&_left _ _ fit))) in
      reclaimed_agent-Step t d (rw same valid)
