-- ===== src/Handlers/Events.antt =====
-- Processing one event of a provider: app/services/event_processor.py.
use smart_dialer.Lifecycle.Moves.{retry_policy}
use smart_dialer.Lifecycle.Steps.{RetryPolicy}
use smart_dialer.Base.{◌≡◌, Bool, true, false, Option, none, some, refl, arith, if◌then◌else◌}
use smart_dialer.Errors.{Error, Outcome}
use smart_dialer.Model.{Agent, Call, AppliedTransition}
use smart_dialer.Model.Enums.{AgentState, CallState, EventProcessingStatus}
use smart_dialer.StateMachines.Agent.{TransitionActor, Validation, validate_transition}
use smart_dialer.StateMachines.Call.{EventApplicability, agent_state_for_call_state}
use smart_dialer.World.{Action, Env}
use smart_dialer.Repositories.Agents.{find_agent_by_id}
use smart_dialer.Repositories.Events.{ProviderEvent, EventRecordResult}
use smart_dialer.Services.EventProcessor.{
  EventProcessingResult, releases_agent, finish, log_agent_anomaly, move_agent, move_found_agent,
  apply_implied_state, apply_agent_transition, release_call_borrower, after_transition, apply_by,
  apply_to_call, apply_event, apply_outcome, process_recorded, process_event,
}
use smart_dialer.Lifecycle.Steps.{needs_lease}
use smart_dialer.Lifecycle.Agents.{Moves-release_agent, Moves-transition_agent}
use smart_dialer.Lifecycle.Borrowers.{Moves-release_borrower}
use smart_dialer.Lifecycle.Calls.{
  Moves-find_by_provider_call_id, Moves-transition_call, Moves-record_event, Moves-mark_processed,
}
use smart_dialer.Lifecycle.Moves.{
  IsEnv, Moves, moves_rules, Moves-pure, Moves-bind, Moves-attempt, Moves-query,
}

-- The event processor takes over a lease, and never makes one.
processor_keeps_lease :
    (s t : AgentState)
    → validate_transition s t TransitionActor.event_processor ≡ Validation.valid
    → needs_lease t ≡ true
    → needs_lease s ≡ true
unfolding validate_transition
processor_keeps_lease s t valid leased = ground arith

-- What a final state of a call implies for the agent needs no lease.
implied_free :
    (target : CallState) (s : AgentState)
    → agent_state_for_call_state target ≡ some s
    → releases_agent target ≡ true
    → needs_lease s ≡ false
implied_free target s h r = ground arith

module _ {F : Type 0} (e : Env F) (law : IsEnv e) where
  abbrev k : RetryPolicy
  k = retry_policy e

  Moves-finish :
      (event : ProviderEvent) (status : EventProcessingStatus) (applied : Option AppliedTransition)
      → Moves k (finish e event status applied)
  unfolding finish
  Moves-finish event status applied = search (moves_rules, Moves-mark_processed e law)

  Moves-log_agent_anomaly : (r : Outcome (Option Agent)) → Moves k (log_agent_anomaly e r)
  unfolding log_agent_anomaly
  Moves-log_agent_anomaly (Outcome.ok updated) = search moves_rules
  Moves-log_agent_anomaly (Outcome.raised Error.invalid_state_transition) = search moves_rules
  Moves-log_agent_anomaly (Outcome.raised Error.unauthorized_transition_actor) = search moves_rules
  Moves-log_agent_anomaly (Outcome.raised _) = search moves_rules

  release_or_transition :
      (b : Bool) (m n : Action (Unit {0}))
      → (b ≡ true → Moves k m)
      → Moves k n
      → Moves k (if b then m else n)
  release_or_transition true m n hm hn = hm refl
  release_or_transition false m n hm hn = hn

  Moves-move_agent :
      (call : Call) (target : CallState) (s : AgentState) (agent : Agent)
      → agent_state_for_call_state target ≡ some s
      → Moves k (move_agent e call target s agent)
  unfolding move_agent
  Moves-move_agent call target s agent implied =
      release_or_transition _ _ _
        (λ final.
          Moves-bind _ _ (Moves-release_agent e law _ _ _ _ (implied_free target s implied final))
            (λ _. Moves-pure _))
        (Moves-attempt _ _
          (Moves-transition_agent e law _ _ _ _ _ (processor_keeps_lease agent.state s))
          Moves-log_agent_anomaly)

  Moves-move_found_agent :
      (call : Call) (target : CallState) (s : AgentState) (agent : Option Agent)
      → agent_state_for_call_state target ≡ some s
      → Moves k (move_found_agent e call target s agent)
  unfolding move_found_agent
  Moves-move_found_agent call target s none implied = search moves_rules
  Moves-move_found_agent call target s (some agent) implied = search (moves_rules, Moves-move_agent)

  Moves-apply_implied_state :
      (call : Call) (target : CallState) (s : Option AgentState)
      → agent_state_for_call_state target ≡ s
      → Moves k (apply_implied_state e call target s)
  unfolding apply_implied_state find_agent_by_id
  Moves-apply_implied_state call target none implied = search moves_rules
  Moves-apply_implied_state call target (some s) implied =
      Moves-bind _ _ (Moves-query e law _)
        (λ agent. Moves-move_found_agent call target s agent implied)

  Moves-apply_agent_transition :
      (call : Call) (target : CallState) → Moves k (apply_agent_transition e call target)
  unfolding apply_agent_transition
  Moves-apply_agent_transition call target = Moves-apply_implied_state call target _ refl

  Moves-release_call_borrower :
      (call : Call) (target : CallState) → Moves k (release_call_borrower e call target)
  unfolding release_call_borrower
  Moves-release_call_borrower call target = search (moves_rules, Moves-release_borrower e law)

  pub Moves-after_transition :
      (event : ProviderEvent) (old target : CallState) (updated : Option Call)
      → Moves k (after_transition e event old target updated)
  unfolding after_transition
  Moves-after_transition event old target none = search Moves-finish
  Moves-after_transition event old target (some updated) =
      search (moves_rules, Moves-apply_agent_transition, Moves-release_call_borrower, Moves-finish)

  Moves-apply_by :
      (a : EventApplicability) (event : ProviderEvent) (call : Call) (target : CallState)
      → Moves k (apply_by e a event call target)
  unfolding apply_by
  Moves-apply_by EventApplicability.apply event call target =
      search (moves_rules, Moves-transition_call e law, Moves-after_transition)
  Moves-apply_by _ event call target = search Moves-finish

  pub Moves-apply_to_call :
      (event : ProviderEvent) (target : Option CallState) (call : Option Call)
      → Moves k (apply_to_call e event target call)
  unfolding apply_to_call
  Moves-apply_to_call event target none = search Moves-finish
  Moves-apply_to_call event none (some call) = search Moves-finish
  Moves-apply_to_call event (some target) (some call) = search Moves-apply_by

  Moves-apply_event : (event : ProviderEvent) → Moves k (apply_event e event)
  unfolding apply_event
  Moves-apply_event event =
      search (moves_rules, Moves-find_by_provider_call_id e law, Moves-apply_to_call)

  Moves-apply_outcome :
      (event : ProviderEvent) (r : Outcome EventProcessingResult)
      → Moves k (apply_outcome e event r)
  unfolding apply_outcome
  Moves-apply_outcome event (Outcome.ok result) = search moves_rules
  Moves-apply_outcome event (Outcome.raised Error.cancelled) = search moves_rules
  Moves-apply_outcome event (Outcome.raised _) = search Moves-finish

  Moves-process_recorded :
      (event : ProviderEvent) (r : EventRecordResult) → Moves k (process_recorded e event r)
  unfolding process_recorded
  Moves-process_recorded event EventRecordResult.duplicate = search moves_rules
  Moves-process_recorded event EventRecordResult.recorded =
      search (moves_rules, Moves-apply_event, Moves-apply_outcome)

  pub Moves-process_event : (event : ProviderEvent) → Moves k (process_event e event)
  unfolding process_event
  Moves-process_event event = search (moves_rules, Moves-record_event e law, Moves-process_recorded)
