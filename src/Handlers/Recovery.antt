-- ===== src/Handlers/Recovery.antt =====
-- The recovery sweeps: app/workers/recovery_worker.py.
use smart_dialer.Lifecycle.Moves.{retry_policy}
use smart_dialer.Lifecycle.Steps.{RetryPolicy}
use smart_dialer.Base.{
  ℕ, ◌≡◌, Bool, true, false, String, Option, none, some, List, [], ◌∷◌, refl, All, All-map, &&_left,
}
use smart_dialer.Errors.{Error, Outcome}
use smart_dialer.Model.{Agent, Call}
use smart_dialer.Model.Enums.{AgentState}
use smart_dialer.StateMachines.Agent.{TransitionActor, Validation, validate_transition}
use smart_dialer.StateMachines.Agent.Sources.{allowed_sources-validate}
use smart_dialer.World.{ProviderCallStatus, Env}
use smart_dialer.Repositories.Agents.{
  find_expired_agent_leases, find_heartbeat_expired, find_expired_wrap_ups,
}
use smart_dialer.Workers.Recovery.{
  RecoverySweepCounts, no_sweeps, tally, release_call_borrower, release_parties, after_cancel,
  cancel_live, cancel_found, cancel_by_id, cancel_bound_call, status_outcome, reconcile_by_id,
  reconcile_with_provider, recover_leases, sweep_expired_agent_leases,
  sweep_expired_borrower_leases, after_reconcile, reconcile_calls, sweep_orphaned_calls, log_out,
  sweep_heartbeat_timeouts, end_wrap_ups, sweep_stuck_wrap_ups, sweep_outcome, run_sweeps,
}
use smart_dialer.Lifecycle.Agents.{
  Moves-release_agent, Moves-transition_agent, Moves-release_expired_agent_lease,
}
use smart_dialer.Lifecycle.Borrowers.{Moves-release_borrower, Moves-reclaim_expired_borrower_leases}
use smart_dialer.Lifecycle.Calls.{
  Moves-find_call_by_id, Moves-find_stale_calls, Moves-transition_call,
}
use smart_dialer.Lifecycle.Moves.{
  IsEnv, Moves, moves_rules, Moves-bind, Moves-bind_where, Moves-attempt, Moves-now, Moves-query,
  Moves-ask, query-ok,
}

-- Recovery may release the agent from this state.
abbrev IsRecoverable : Agent → Type 0
IsRecoverable a =
    validate_transition a.state AgentState.available TransitionActor.recovery ≡ Validation.valid

module _ {F : Type 0} (e : Env F) (law : IsEnv e) where
  abbrev k : RetryPolicy
  k = retry_policy e

  Moves-release_call_borrower : (call : Call) → Moves k (release_call_borrower e call)
  unfolding release_call_borrower
  Moves-release_call_borrower call = Moves-release_borrower e law _ _ _

  Moves-release_parties : (call : Call) → Moves k (release_parties e call)
  unfolding release_parties
  Moves-release_parties call =
      Moves-bind _ _ (Moves-release_agent e law _ _ _ _ refl)
        (λ _. search (moves_rules, Moves-release_call_borrower))

  Moves-after_cancel : (o : Option Call) → Moves k (after_cancel e o)
  unfolding after_cancel
  Moves-after_cancel none = search moves_rules
  Moves-after_cancel (some cancelled) = search (moves_rules, Moves-release_call_borrower)

  Moves-cancel_live :
      (b : Bool) (call : Call) (reason : String) → Moves k (cancel_live e b call reason)
  unfolding cancel_live
  Moves-cancel_live true call reason = search moves_rules
  Moves-cancel_live false call reason =
      search (moves_rules, Moves-transition_call e law, Moves-after_cancel)

  Moves-cancel_found : (o : Option Call) (reason : String) → Moves k (cancel_found e o reason)
  unfolding cancel_found
  Moves-cancel_found none reason = search moves_rules
  Moves-cancel_found (some call) reason = search Moves-cancel_live

  Moves-cancel_by_id : (o : Option ℕ) (reason : String) → Moves k (cancel_by_id e o reason)
  unfolding cancel_by_id
  Moves-cancel_by_id none reason = search moves_rules
  Moves-cancel_by_id (some call_id) reason =
      search (moves_rules, Moves-find_call_by_id e law, Moves-cancel_found)

  Moves-cancel_bound_call :
      (agent : Agent) (reason : String) → Moves k (cancel_bound_call e agent reason)
  unfolding cancel_bound_call
  Moves-cancel_bound_call agent reason = Moves-cancel_by_id _ reason

  Moves-status_outcome : (r : Outcome ProviderCallStatus) → Moves k (status_outcome e r)
  unfolding status_outcome
  Moves-status_outcome (Outcome.ok status) = search moves_rules
  Moves-status_outcome (Outcome.raised Error.provider_timeout) = search moves_rules
  Moves-status_outcome (Outcome.raised (Error.provider_rejected reason)) = search moves_rules
  Moves-status_outcome (Outcome.raised Error.provider_unavailable) = search moves_rules
  Moves-status_outcome (Outcome.raised _) = search moves_rules

  Moves-reconcile_by_id : (provider : ℕ) (p : Option ℕ) → Moves k (reconcile_by_id e provider p)
  unfolding reconcile_by_id
  Moves-reconcile_by_id provider none = search moves_rules
  Moves-reconcile_by_id provider (some p) =
      search (moves_rules, Moves-ask e law, Moves-status_outcome)

  Moves-reconcile_with_provider : (call : Call) → Moves k (reconcile_with_provider e call)
  unfolding reconcile_with_provider
  Moves-reconcile_with_provider call = Moves-reconcile_by_id _ _

  Moves-recover_leases :
      (t recovered : ℕ) (agents : List Agent)
      → All IsRecoverable agents
      → Moves k (recover_leases e t recovered agents)
  unfolding recover_leases
  Moves-recover_leases t recovered [] valid = search moves_rules
  Moves-recover_leases t recovered (agent ∷ rest) valid =
      Moves-bind _ _ (Moves-cancel_bound_call agent _) λ _.
        Moves-bind _ _ (Moves-release_expired_agent_lease e law agent t valid.0)
          λ released. Moves-recover_leases t (tally released recovered) rest valid.1

  Moves-sweep_expired_agent_leases : (t limit : ℕ) → Moves k (sweep_expired_agent_leases e t limit)
  unfolding sweep_expired_agent_leases find_expired_agent_leases
  Moves-sweep_expired_agent_leases t limit =
      Moves-bind_where (All IsRecoverable) _ _ (Moves-query e law _)
        (λ w found h.
          All-map _ _
            (λ d fit.
              (allowed_sources-validate d.state AgentState.available TransitionActor.recovery).0
                (&&_left _ _ (&&_left _ _ fit.1)))
            found (law.agents_law.find_found _ _ _ _ _ found (query-ok e _ w found h)))
        (λ agents valid. Moves-recover_leases t 0 agents valid)

  Moves-sweep_expired_borrower_leases :
      (t limit : ℕ) → Moves k (sweep_expired_borrower_leases e t limit)
  unfolding sweep_expired_borrower_leases
  Moves-sweep_expired_borrower_leases t limit =
      search (moves_rules, Moves-reclaim_expired_borrower_leases e law)

  Moves-after_reconcile : (o : Option Call) → Moves k (after_reconcile e o)
  unfolding after_reconcile
  Moves-after_reconcile none = search moves_rules
  Moves-after_reconcile (some finished) = Moves-release_parties finished

  Moves-reconcile_calls :
      (recovered : ℕ) (calls : List Call) → Moves k (reconcile_calls e recovered calls)
  unfolding reconcile_calls
  Moves-reconcile_calls recovered [] = search moves_rules
  Moves-reconcile_calls recovered (call ∷ rest) =
      Moves-bind _ _ (Moves-reconcile_with_provider call) λ target.
        Moves-bind _ _ (Moves-transition_call e law _ target _) λ finished.
          Moves-bind _ _ (Moves-after_reconcile finished)
            λ _. Moves-reconcile_calls (tally finished recovered) rest

  Moves-sweep_orphaned_calls : (t limit : ℕ) → Moves k (sweep_orphaned_calls e t limit)
  unfolding sweep_orphaned_calls
  Moves-sweep_orphaned_calls t limit =
      search (moves_rules, Moves-find_stale_calls e law, Moves-reconcile_calls)

  Moves-log_out : (n : ℕ) (agents : List Agent) → Moves k (log_out e n agents)
  unfolding log_out
  Moves-log_out n [] = search moves_rules
  Moves-log_out n (agent ∷ rest) = Moves-bind _ _ (Moves-cancel_bound_call agent _) λ _.
      Moves-bind _ _ (Moves-transition_agent e law _ _ _ _ _ (λ _ leased. cc))
        λ updated. Moves-log_out (tally updated n) rest

  Moves-sweep_heartbeat_timeouts : (t limit : ℕ) → Moves k (sweep_heartbeat_timeouts e t limit)
  unfolding sweep_heartbeat_timeouts find_heartbeat_expired
  Moves-sweep_heartbeat_timeouts t limit = search (moves_rules, Moves-query e law, Moves-log_out)

  pub Moves-end_wrap_ups :
      (actor : TransitionActor) (n : ℕ) (agents : List Agent)
      → Moves k (end_wrap_ups e actor n agents)
  unfolding end_wrap_ups
  Moves-end_wrap_ups actor n [] = search moves_rules
  Moves-end_wrap_ups actor n (agent ∷ rest) =
      Moves-bind _ _ (Moves-transition_agent e law _ _ _ _ _ (λ _ leased. cc))
        λ updated. Moves-end_wrap_ups actor (tally updated n) rest

  Moves-sweep_stuck_wrap_ups : (t limit : ℕ) → Moves k (sweep_stuck_wrap_ups e t limit)
  unfolding sweep_stuck_wrap_ups find_expired_wrap_ups
  Moves-sweep_stuck_wrap_ups t limit = search (moves_rules, Moves-query e law, Moves-end_wrap_ups)

  Moves-sweep_outcome :
      (name : String) (store : ℕ → RecoverySweepCounts → RecoverySweepCounts)
      (counts : RecoverySweepCounts) (r : Outcome ℕ)
      → Moves k (sweep_outcome e name store counts r)
  unfolding sweep_outcome
  Moves-sweep_outcome name store counts (Outcome.ok n) = search moves_rules
  Moves-sweep_outcome name store counts (Outcome.raised Error.cancelled) = search moves_rules
  Moves-sweep_outcome name store counts (Outcome.raised _) = search moves_rules

  pub Moves-run_sweeps : Moves k (run_sweeps e)
  unfolding run_sweeps
  Moves-run_sweeps = Moves-bind _ _ (Moves-now e law) λ t.
      Moves-bind _ _
        (Moves-attempt _ _ (Moves-sweep_expired_agent_leases t _) (
          Moves-sweep_outcome "expired_agent_leases" (λ n c. record c { expired_agent_leases = n })
            no_sweeps))
        λ c1.
          Moves-bind _ _
            (Moves-attempt _ _ (Moves-sweep_expired_borrower_leases t _) (
              Moves-sweep_outcome "expired_borrower_leases"
                (λ n c. record c { expired_borrower_leases = n }) c1))
            λ c2.
              Moves-bind _ _
                (Moves-attempt _ _ (Moves-sweep_orphaned_calls t _) (
                  Moves-sweep_outcome "orphaned_calls" (λ n c. record c { orphaned_calls = n }) c2))
                λ c3.
                  Moves-bind _ _
                    (Moves-attempt _ _ (Moves-sweep_heartbeat_timeouts t _) (
                      Moves-sweep_outcome "heartbeat_timeouts"
                        (λ n c. record c { heartbeat_timeouts = n }) c3))
                    λ c4. Moves-attempt _ _ (Moves-sweep_stuck_wrap_ups t _) (
                      Moves-sweep_outcome "stuck_wrap_ups" (λ n c. record c { stuck_wrap_ups = n })
                        c4)
