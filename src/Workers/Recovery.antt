-- ===== src/Workers/Recovery.antt =====
-- app/workers/recovery_worker.py: the sweeps. The task that repeats them for ever is not modelled.
use smart_dialer.Base.{
  ℕ, suc, ◌+◌, ◌-◌, ◌*◌, Bool, true, false, String, Option, none, some, List, [], ◌∷◌, ◌++◌,
}
use smart_dialer.Errors.{Error, Outcome}
use smart_dialer.Model.{Agent, Borrower, Call}
use smart_dialer.Model.Enums.{AgentState, CallState}
use smart_dialer.Settings.{seconds}
use smart_dialer.StateMachines.Agent.{TransitionActor}
use smart_dialer.Repositories.Agents.{
  transition_agent, release_agent, find_expired_agent_leases, release_expired_agent_lease,
  find_heartbeat_expired, find_expired_wrap_ups,
}
use smart_dialer.Repositories.Borrowers.{release_borrower, reclaim_expired_borrower_leases}
use smart_dialer.Repositories.Calls.{find_call_by_id, find_stale_calls, transition_call}
use smart_dialer.Services.Retry.{outcome_for_terminal_call}
use smart_dialer.World.{
  ProviderCallStatus, Action, Env, ◌>>=◌, ◌>>◌, pure, raise, attempt, now, ask,
}

pub record RecoverySweepCounts : Type 0 where
  pub expired_agent_leases : ℕ
  pub expired_borrower_leases : ℕ
  pub orphaned_calls : ℕ
  pub heartbeat_timeouts : ℕ
  pub stuck_wrap_ups : ℕ
  pub errors : List String

-- PROVIDER_STATUS_TO_CALL_STATE, with its default
abbrev pub provider_status_to_call_state : ProviderCallStatus → CallState
provider_status_to_call_state ProviderCallStatus.completed = CallState.completed
provider_status_to_call_state _ = CallState.failed

-- `failure_reason="orphaned" if target_state is FAILED else None`
abbrev pub orphan_reason : CallState → Option String
orphan_reason CallState.failed = some "orphaned"
orphan_reason _ = none

-- a `RecoverySweepCounts()`
abbrev pub no_sweeps : RecoverySweepCounts
no_sweeps = record {
  expired_agent_leases = 0;
  expired_borrower_leases = 0;
  orphaned_calls = 0;
  heartbeat_timeouts = 0;
  stuck_wrap_ups = 0;
  errors = [];
}

-- `released is not None` adds one
abbrev pub tally {ℓ} : {A : Type ℓ} → Option A → ℕ → ℕ
tally none n = n
tally (some a) n = n + 1

abbrev count_all {ℓ} : {A : Type ℓ} → List A → ℕ
count_all [] = 0
count_all (x ∷ xs) = suc (count_all xs)

module _ {F : Type 0} (e : Env F) where
  -- `_release_borrower`
  unfoldable pub release_call_borrower : Call → Action (Option Borrower)
  release_call_borrower call =
      release_borrower e call.borrower_id call.created_by_worker (outcome_for_terminal_call false)
        e.settings.max_call_attempts e.settings.retry_backoff_base_seconds

  unfoldable pub release_parties : Call → Action (Unit {0})
  unfolding release_call_borrower
  release_parties call = do
    release_agent e call.agent_id call.created_by_worker AgentState.available
        TransitionActor.recovery
    release_call_borrower call
    pure tt

  unfoldable pub after_cancel : Option Call → Action (Unit {0})
  unfolding release_call_borrower
  after_cancel none = pure tt
  after_cancel (some cancelled) = do release_call_borrower cancelled; pure tt

  -- `call is None or call.terminal` returns
  unfoldable pub cancel_live : Bool → Call → String → Action (Unit {0})
  unfolding after_cancel
  cancel_live true call reason = pure tt
  cancel_live false call reason = do
    cancelled ← transition_call e call.id CallState.cancelled (some reason)
    after_cancel cancelled

  unfoldable pub cancel_found : Option Call → String → Action (Unit {0})
  unfolding cancel_live
  cancel_found none reason = pure tt
  cancel_found (some call) reason = cancel_live call.terminal call reason

  unfoldable pub cancel_by_id : Option ℕ → String → Action (Unit {0})
  unfolding cancel_found
  cancel_by_id none reason = pure tt
  cancel_by_id (some call_id) reason = do call ← find_call_by_id e call_id; cancel_found call reason

  unfoldable pub cancel_bound_call : Agent → String → Action (Unit {0})
  unfolding cancel_by_id
  cancel_bound_call agent reason = cancel_by_id agent.current_call_id reason

  -- a ProviderError counts as FAILED
  unfoldable pub status_outcome : Outcome ProviderCallStatus → Action CallState
  status_outcome (Outcome.ok status) = pure (provider_status_to_call_state status)
  status_outcome (Outcome.raised Error.provider_timeout) = pure CallState.failed
  status_outcome (Outcome.raised (Error.provider_rejected reason)) = pure CallState.failed
  status_outcome (Outcome.raised Error.provider_unavailable) = pure CallState.failed
  status_outcome (Outcome.raised x) = raise x

  unfoldable pub reconcile_by_id : ℕ → Option ℕ → Action CallState
  unfolding status_outcome
  reconcile_by_id provider_name none = pure CallState.failed
  reconcile_by_id provider_name (some provider_call_id) =
      attempt (ask e (λ n. e.providers.get_call_status n provider_name provider_call_id))
        status_outcome

  unfoldable pub reconcile_with_provider : Call → Action CallState
  unfolding reconcile_by_id
  reconcile_with_provider call = reconcile_by_id call.provider_name call.provider_call_id

  -- the loops over what a sweep found, with the number recovered so far
  unfoldable pub recover_leases : ℕ → ℕ → List Agent → Action ℕ
  unfolding cancel_bound_call
  recover_leases t recovered [] = pure recovered
  recover_leases t recovered (agent ∷ rest) = do
    cancel_bound_call agent "agent_lease_expired"
    released ← release_expired_agent_lease e agent t
    recover_leases t (tally released recovered) rest

  unfoldable pub sweep_expired_agent_leases : ℕ → ℕ → Action ℕ
  unfolding recover_leases
  sweep_expired_agent_leases t limit = do
    agents ← find_expired_agent_leases e t limit
    recover_leases t 0 agents

  unfoldable pub sweep_expired_borrower_leases : ℕ → ℕ → Action ℕ
  sweep_expired_borrower_leases t limit = do
    reclaimed ← reclaim_expired_borrower_leases e t limit
    pure (count_all reclaimed)

  unfoldable pub after_reconcile : Option Call → Action (Unit {0})
  unfolding release_parties
  after_reconcile none = pure tt
  after_reconcile (some finished) = release_parties finished

  unfoldable pub reconcile_calls : ℕ → List Call → Action ℕ
  unfolding reconcile_with_provider after_reconcile
  reconcile_calls recovered [] = pure recovered
  reconcile_calls recovered (call ∷ rest) = do
    target_state ← reconcile_with_provider call
    finished ← transition_call e call.id target_state (orphan_reason target_state)
    after_reconcile finished
    reconcile_calls (tally finished recovered) rest

  unfoldable pub sweep_orphaned_calls : ℕ → ℕ → Action ℕ
  unfolding reconcile_calls
  sweep_orphaned_calls t limit = do
    calls ← find_stale_calls e (t - seconds e.settings.call_stale_timeout_seconds) limit
    reconcile_calls 0 calls

  unfoldable pub log_out : ℕ → List Agent → Action ℕ
  unfolding cancel_bound_call
  log_out logged_out [] = pure logged_out
  log_out logged_out (agent ∷ rest) = do
    cancel_bound_call agent "agent_disappeared"
    updated ←
        transition_agent e agent.id agent.state AgentState.offline TransitionActor.recovery
          agent.state_version
    log_out (tally updated logged_out) rest

  unfoldable pub sweep_heartbeat_timeouts : ℕ → ℕ → Action ℕ
  unfolding log_out
  sweep_heartbeat_timeouts t limit = do
    agents ← find_heartbeat_expired e (t - seconds e.settings.agent_heartbeat_timeout_seconds) limit
    log_out 0 agents

  unfoldable pub end_wrap_ups : TransitionActor → ℕ → List Agent → Action ℕ
  end_wrap_ups actor released [] = pure released
  end_wrap_ups actor released (agent ∷ rest) = do
    updated ←
        transition_agent e agent.id AgentState.wrap_up AgentState.available actor
          agent.state_version
    end_wrap_ups actor (tally updated released) rest

  unfoldable pub sweep_stuck_wrap_ups : ℕ → ℕ → Action ℕ
  unfolding end_wrap_ups
  sweep_stuck_wrap_ups t limit =
      let grace = e.settings.wrap_up_seconds * 2 in
      find_expired_wrap_ups e (t - seconds (e.settings.wrap_up_seconds + grace)) limit none
      >>= λ agents. end_wrap_ups TransitionActor.recovery 0 agents

  -- One round of the loop in `run_sweeps`: the count is stored, or the sweep's name is.
  unfoldable pub sweep_outcome :
      String
      → (ℕ → RecoverySweepCounts → RecoverySweepCounts)
      → RecoverySweepCounts
      → Outcome ℕ
      → Action RecoverySweepCounts
  sweep_outcome name store counts (Outcome.ok n) = pure (store n counts)
  sweep_outcome name store counts (Outcome.raised Error.cancelled) = raise Error.cancelled
  sweep_outcome name store counts (Outcome.raised x) =
      pure (record counts { errors = counts.errors ++ name ∷ [] })

  unfoldable pub run_sweeps : Action RecoverySweepCounts
  unfolding sweep_outcome sweep_expired_agent_leases sweep_expired_borrower_leases
      sweep_orphaned_calls sweep_heartbeat_timeouts sweep_stuck_wrap_ups
  run_sweeps = now e >>= λ t.
      let limit = e.settings.recovery_sweep_limit in
      do
        c1 ← attempt (sweep_expired_agent_leases t limit) (
            sweep_outcome "expired_agent_leases" (λ n c. record c { expired_agent_leases = n })
              no_sweeps)
        c2 ← attempt (sweep_expired_borrower_leases t limit) (
            sweep_outcome "expired_borrower_leases"
              (λ n c. record c { expired_borrower_leases = n }) c1)
        c3 ←
            attempt (sweep_orphaned_calls t limit)
              (sweep_outcome "orphaned_calls" (λ n c. record c { orphaned_calls = n }) c2)
        c4 ←
            attempt (sweep_heartbeat_timeouts t limit)
              (sweep_outcome "heartbeat_timeouts" (λ n c. record c { heartbeat_timeouts = n }) c3)
        attempt (sweep_stuck_wrap_ups t limit)
            (sweep_outcome "stuck_wrap_ups" (λ n c. record c { stuck_wrap_ups = n }) c4)
