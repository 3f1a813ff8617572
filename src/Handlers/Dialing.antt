-- ===== src/Handlers/Dialing.antt =====
-- A tick of the dialer: the safety evaluation, then the allocation.
use smart_dialer.Lifecycle.Moves.{retry_policy}
use smart_dialer.Lifecycle.Steps.{RetryPolicy}
use smart_dialer.Base.{ℕ, Bool, true, false, Option}
use smart_dialer.Errors.{Error, Outcome}
use smart_dialer.Repositories.Agents.{count_expired_leases}
use smart_dialer.Model.{Campaign}
use smart_dialer.Safety.Availability.{record_and_detect}
use smart_dialer.Safety.Constraints.{PacingRequest, SafetyDecision}
use smart_dialer.Safety.Controller.{
  read_capacity, evaluate_checked, evaluate_outcome, persist_outcome, persist_decision, evaluate,
}
use smart_dialer.Dialers.{record_pacing, tick_request, tick}
use smart_dialer.Dialers.Modes.{Dialer}
use smart_dialer.Handlers.Snapshot.{
  Moves-agents_by_state, Moves-calls_by_state, Moves-outcome_counts_between, Moves-build_snapshot,
}
use smart_dialer.Handlers.Gate.{Moves-get_health}
use smart_dialer.Handlers.Allocation.{Moves-allocate}
use smart_dialer.World.{Env}
use smart_dialer.Lifecycle.Moves.{
  IsEnv, Moves, moves_rules, Moves-pure, Moves-bind, Moves-attempt, Moves-now, Moves-query,
  Moves-ask, Moves-fresh_id,
}

module _ {F : Type 0} (e : Env F) (law : IsEnv e) where
  abbrev k : RetryPolicy
  k = retry_policy e

  Moves-count_expired_leases : (t : ℕ) → Moves k (count_expired_leases e t)
  unfolding count_expired_leases
  Moves-count_expired_leases t = Moves-query e law _

  Moves-read_capacity : (campaign : Campaign) → Moves k (read_capacity e campaign)
  unfolding read_capacity
  Moves-read_capacity campaign = Moves-bind _ _ (Moves-now e law) λ t.
      Moves-bind _ _ (Moves-agents_by_state e law _) λ agent_counts.
        Moves-bind _ _ (Moves-calls_by_state e law _) λ call_counts.
          Moves-bind _ _ (Moves-count_expired_leases _) λ expired_leases.
            Moves-bind _ _ (Moves-outcome_counts_between e law _ _ _)
              λ outcomes. Moves-bind _ _ (Moves-get_health e law _) λ health. Moves-pure _

  Moves-record_and_detect : (id available : ℕ) → Moves k (record_and_detect e id available)
  unfolding record_and_detect
  Moves-record_and_detect id available = search moves_rules

  Moves-evaluate_checked :
      (campaign : Campaign) (request : PacingRequest) (id : Option ℕ)
      → Moves k (evaluate_checked e campaign request id)
  unfolding evaluate_checked
  Moves-evaluate_checked campaign request id =
      Moves-bind _ _ (Moves-read_capacity campaign) λ reading. Moves-bind _ _ (Moves-now e law) λ t.
        Moves-bind _ _ (Moves-record_and_detect _ _)
          λ drop. Moves-bind _ _ (Moves-now e law) λ created_at. Moves-pure _

  Moves-evaluate_outcome :
      (campaign : Campaign) (request : PacingRequest) (id : Option ℕ)
      (r : Outcome (SafetyDecision F))
      → Moves k (evaluate_outcome e campaign request id r)
  unfolding evaluate_outcome
  Moves-evaluate_outcome campaign request id (Outcome.ok d) = search moves_rules
  Moves-evaluate_outcome campaign request id (Outcome.raised Error.cancelled) = search moves_rules
  Moves-evaluate_outcome campaign request id (Outcome.raised _) =
      Moves-bind _ _ (Moves-now e law) (λ _. Moves-pure _)

  Moves-persist_outcome : (r : Outcome (Unit {0})) → Moves k (persist_outcome e r)
  unfolding persist_outcome
  Moves-persist_outcome (Outcome.ok _) = search moves_rules
  Moves-persist_outcome (Outcome.raised Error.cancelled) = search moves_rules
  Moves-persist_outcome (Outcome.raised _) = search moves_rules

  Moves-persist_decision :
      (persist : Bool) (d : SafetyDecision F) → Moves k (persist_decision e persist d)
  unfolding persist_decision
  Moves-persist_decision false d = search moves_rules
  Moves-persist_decision true d =
      Moves-bind _ _ (Moves-attempt _ _ (Moves-ask e law _) (λ r. Moves-persist_outcome r))
        (λ _. Moves-pure _)

  Moves-evaluate :
      (campaign : Campaign) (request : PacingRequest) (id : Option ℕ) (persist : Bool)
      → Moves k (evaluate e campaign request id persist)
  unfolding evaluate
  Moves-evaluate campaign request id persist =
      Moves-bind _ _
        (Moves-attempt _ _ (Moves-evaluate_checked campaign request id)
          (λ r. Moves-evaluate_outcome campaign request id r))
        (λ d. Moves-persist_decision persist d)

  Moves-record_pacing : (idle : Bool) → Moves k (record_pacing e idle)
  unfolding record_pacing
  Moves-record_pacing true = search moves_rules
  Moves-record_pacing false =
      Moves-bind _ _ (Moves-fresh_id e law)
        λ id. Moves-bind _ _ (Moves-ask e law _) λ _. Moves-pure _

  pub Moves-tick_request :
      (campaign : Campaign) (request : PacingRequest) (worker_id : ℕ)
      → Moves k (tick_request e campaign request worker_id)
  unfolding tick_request
  Moves-tick_request campaign request worker_id = Moves-bind _ _ (Moves-record_pacing _) λ id.
      Moves-bind _ _ (Moves-evaluate campaign request id _)
        λ d. Moves-bind _ _ (Moves-allocate e law campaign d.approved worker_id) λ a. Moves-pure _

  pub Moves-tick :
      (dialer : Dialer) (campaign : Campaign) (worker_id : ℕ)
      → Moves k (tick e dialer campaign worker_id)
  unfolding tick
  Moves-tick dialer campaign worker_id =
      Moves-bind _ _ (Moves-build_snapshot e law campaign)
        (λ snapshot. Moves-tick_request campaign _ worker_id)
