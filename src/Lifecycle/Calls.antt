-- ===== src/Lifecycle/Calls.antt =====
-- The operations of app/repositories/call_repo.py and event_repo.py stay within the specification.
use smart_dialer.Lifecycle.Moves.{retry_policy}
use smart_dialer.Lifecycle.Steps.{RetryPolicy}
use smart_dialer.Base.{
  ℕ, ◌<◌, ◌≡◌, refl, false, String, List, Option, none, some, &&_left, &&_right, is_some, arith,
  not-true, ltb, ltb→lt, Bool-cases, inl, inr,
}
use smart_dialer.Errors.{Error, Outcome}
use smart_dialer.Model.{Call}
use smart_dialer.Model.Enums.{CallState}
use smart_dialer.Model.Enums.{EventProcessingStatus}
use smart_dialer.Model.{AppliedTransition}
use smart_dialer.StateMachines.Call.{rank, is_terminal}
use smart_dialer.StateMachines.Call.Order.{can_transition-initiated}
use smart_dialer.World.{Action, Env}
use smart_dialer.Repositories.Calls.{
  new_call, transitioned_call, existing_call, after_insert, create_call, find_call_by_id,
  find_by_provider_call_id, none_if_duplicate, attach_provider_call_id, transition_call,
  find_stale_calls, from_mongo, from_mongo_each,
}
use smart_dialer.Repositories.Events.{ProviderEvent, record_result, record_event, mark_processed}
use smart_dialer.Lifecycle.Steps.{CallStep, IsConsistent, IsLegal}
use smart_dialer.Lifecycle.Moves.{
  IsEnv, Moves, Moves-pure, Moves-raise, Moves-bind, Moves-attempt, Moves-now, Moves-fresh_id,
  Moves-query, Moves-write_calls, Moves-insert_call, Moves-write_events, Moves-insert_event,
}

-- A rise in rank from a live state is in the table, once the call is dialled.
rise-IsLegal :
    (d d' : Call) → is_terminal d.state ≡ false → rank d.state < rank d'.state → IsLegal d d'
rise-IsLegal d d' live lt = elim (Bool-cases (ltb (rank d.state) (rank CallState.initiated))) [
  | inl before ↦ IsLegal.undialled (ltb→lt _ _ before)
  | inr dialled ↦
      IsLegal.permitted
        (can_transition-initiated d.state d'.state (ground (arith, dialled)) live lt)
]

transitioned_call-IsLegal :
    (target : CallState) (reason : Option String) (t : ℕ) (d : Call)
    → d.terminal ≡ false
    → d.state_rank < rank target
    → IsConsistent d
    → IsLegal d (transitioned_call target reason t d)
unfolding transitioned_call
transitioned_call-IsLegal target reason t d live lt k =
    let to_target : (transitioned_call target reason t d).state ≡ target = ground arith in
    rise-IsLegal d (transitioned_call target reason t d) (ground (arith, k.1, live))
      (rw to_target (omega (arith, k.0, lt)))

transitioned_call-Step :
    (target : CallState) (reason : Option String) (t : ℕ) (d : Call)
    → d.terminal ≡ false
    → d.state_rank < rank target
    → CallStep d (transitioned_call target reason t d)
unfolding transitioned_call
transitioned_call-Step target reason t d live lt =
    let legal = transitioned_call-IsLegal target reason t d live lt in ground (arith, legal)

attached-Step :
    (p : Option ℕ) (t : ℕ) (d : Call)
    → is_some d.provider_call_id ≡ false
    → CallStep d (record d { provider_call_id = p; updated_at = t })
attached-Step p t d free = ground arith

module _ {k : RetryPolicy} where
  Moves-from_mongo : (m : Action (Option Call)) → Moves k m → Moves k (from_mongo m)
  unfolding from_mongo
  Moves-from_mongo m h = Moves-bind _ _ h (λ d. Moves-pure _)

  Moves-from_mongo_each : (m : Action (List Call)) → Moves k m → Moves k (from_mongo_each m)
  unfolding from_mongo_each
  Moves-from_mongo_each m h = Moves-bind _ _ h (λ d. Moves-pure _)

  Moves-record_result : (r : Outcome (Unit {0})) → Moves k (record_result r)
  unfolding record_result
  Moves-record_result (Outcome.ok _) = Moves-pure _
  Moves-record_result (Outcome.raised Error.duplicate_key_error) = Moves-pure _
  Moves-record_result (Outcome.raised _) = Moves-raise _

module _ {F : Type 0} (e : Env F) (law : IsEnv e) where
  abbrev k : RetryPolicy
  k = retry_policy e

  Moves-none_if_duplicate : (r : Outcome (Option Call)) → Moves k (none_if_duplicate e r)
  unfolding none_if_duplicate
  Moves-none_if_duplicate (Outcome.ok found) = Moves-pure _
  Moves-none_if_duplicate (Outcome.raised Error.duplicate_key_error) = Moves-pure _
  Moves-none_if_duplicate (Outcome.raised _) = Moves-raise _

  Moves-existing_call : (o : Option Call) → Moves k (existing_call o)
  unfolding existing_call
  Moves-existing_call none = Moves-raise _
  Moves-existing_call (some d) = Moves-pure _

  Moves-after_insert : (c : Call) (r : Outcome (Unit {0})) → Moves k (after_insert e c r)
  unfolding after_insert
  Moves-after_insert c (Outcome.ok _) = Moves-pure _
  Moves-after_insert c (Outcome.raised Error.duplicate_key_error) =
      Moves-bind _ _ (Moves-from_mongo _ (Moves-query e law _)) Moves-existing_call
  Moves-after_insert c (Outcome.raised _) = Moves-raise _

  pub Moves-create_call :
      (campaign agent borrower provider worker attempt_number : ℕ) (retry_of : Option ℕ)
      → Moves k (create_call e campaign agent borrower provider worker attempt_number retry_of)
  unfolding create_call new_call
  Moves-create_call campaign agent borrower provider worker attempt_number retry_of =
      Moves-bind _ _ (Moves-fresh_id e law) λ id.
        Moves-bind _ _ (Moves-now e law) λ t.
          Moves-attempt _ _ (Moves-insert_call e law _ (refl, refl) refl) (Moves-after_insert _)

  pub Moves-find_call_by_id : (call_id : ℕ) → Moves k (find_call_by_id e call_id)
  unfolding find_call_by_id
  Moves-find_call_by_id call_id = Moves-from_mongo _ (Moves-query e law _)

  pub Moves-find_by_provider_call_id :
      (provider call : ℕ) → Moves k (find_by_provider_call_id e provider call)
  unfolding find_by_provider_call_id
  Moves-find_by_provider_call_id provider call = Moves-from_mongo _ (Moves-query e law _)

  pub Moves-find_stale_calls :
      (older_than limit : ℕ) → Moves k (find_stale_calls e older_than limit)
  unfolding find_stale_calls
  Moves-find_stale_calls older_than limit = Moves-from_mongo_each _ (Moves-query e law _)

  pub Moves-attach_provider_call_id :
      (call_id : ℕ) (p : Option ℕ) → Moves k (attach_provider_call_id e call_id p)
  unfolding attach_provider_call_id
  Moves-attach_provider_call_id call_id p = Moves-bind _ _ (Moves-now e law) λ t.
      Moves-from_mongo _ (
        Moves-attempt _ _
          (Moves-write_calls e law _ _ λ d fit. attached-Step p t d (not-true _ (&&_right _ _ fit)))
          Moves-none_if_duplicate)

  pub Moves-transition_call :
      (call_id : ℕ) (target : CallState) (reason : Option String)
      → Moves k (transition_call e call_id target reason)
  unfolding transition_call
  Moves-transition_call call_id target reason = Moves-bind _ _ (Moves-now e law) λ t.
      Moves-from_mongo _ (
        Moves-write_calls e law _ _ λ d fit.
          transitioned_call-Step target reason t d (not-true _ (&&_right _ _ (&&_left _ _ fit)))
            (ltb→lt _ _ (&&_right _ _ fit)))

  pub Moves-record_event : (event : ProviderEvent) → Moves k (record_event e event)
  unfolding record_event
  Moves-record_event event =
      Moves-bind _ _ (Moves-now e law)
        λ t. Moves-attempt _ _ (Moves-insert_event e law _) Moves-record_result

  pub Moves-mark_processed :
      (provider event : ℕ) (status : EventProcessingStatus) (applied : Option AppliedTransition)
      → Moves k (mark_processed e provider event status applied)
  unfolding mark_processed
  Moves-mark_processed provider event status applied =
      Moves-bind _ _
        (Moves-write_events e law _ _ (λ d fit. record { same_provider = refl; same_event = refl }))
        (λ _. Moves-pure _)
