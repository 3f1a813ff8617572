-- ===== src/Handlers/Allocation.antt =====
-- Dialling the approved number of calls: app/services/call_allocator.py.
use smart_dialer.Lifecycle.Moves.{retry_policy}
use smart_dialer.Lifecycle.Steps.{RetryPolicy}
use smart_dialer.Base.{ℕ, zero, suc, Bool, true, false, String, Option, none, some, refl}
use smart_dialer.Errors.{Error, Outcome}
use smart_dialer.Model.{Campaign, Call}
use smart_dialer.World.{Action, Env, OriginateResult}
use smart_dialer.Repositories.Borrowers.{BorrowerReleaseOutcome}
use smart_dialer.Services.Reservation.{ReservationPair}
use smart_dialer.Services.CallAllocator.{
  AllocationResult, originate_outcome, originate, hangup_outcome, hangup, give_back, after_attach,
  fail_originate, after_originate, after_initiated, after_create, place_call, retry_gate, dial,
  compensate_outcome, dial_outcome, reserve_outcome, dial_pair, allocate_round, count_round,
  allocate_rounds, allocate,
}
use smart_dialer.Lifecycle.Agents.{Moves-transition_agent, Moves-bind_call}
use smart_dialer.Lifecycle.Calls.{
  Moves-create_call, Moves-transition_call, Moves-attach_provider_call_id,
}
use smart_dialer.Handlers.Gate.{Moves-record_originate, Moves-should_retry}
use smart_dialer.Handlers.Reservation.{Moves-reserve_pair, Moves-release_pair}
use smart_dialer.Lifecycle.Moves.{IsEnv, Moves, moves_rules, Moves-pure, Moves-bind, Moves-ask}

module _ {F : Type 0} (e : Env F) (law : IsEnv e) where
  abbrev k : RetryPolicy
  k = retry_policy e

  Moves-originate_outcome :
      (provider : ℕ) (r : Outcome OriginateResult) → Moves k (originate_outcome e provider r)
  unfolding originate_outcome
  Moves-originate_outcome provider (Outcome.ok result) =
      search (moves_rules, Moves-record_originate e law)
  Moves-originate_outcome provider (Outcome.raised Error.provider_timeout) =
      search (moves_rules, Moves-record_originate e law)
  Moves-originate_outcome provider (Outcome.raised (Error.provider_rejected reason)) =
      search (moves_rules, Moves-record_originate e law)
  Moves-originate_outcome provider (Outcome.raised _) = search moves_rules

  Moves-originate :
      (campaign : Campaign) (pair : ReservationPair) (call_id : ℕ)
      → Moves k (originate e campaign pair call_id)
  unfolding originate
  Moves-originate campaign pair call_id =
      search (moves_rules, Moves-ask e law, Moves-originate_outcome)

  Moves-hangup_outcome : (r : Outcome (Unit {0})) → Moves k (hangup_outcome e r)
  unfolding hangup_outcome
  Moves-hangup_outcome (Outcome.ok _) = search moves_rules
  Moves-hangup_outcome (Outcome.raised Error.provider_timeout) = search moves_rules
  Moves-hangup_outcome (Outcome.raised (Error.provider_rejected reason)) = search moves_rules
  Moves-hangup_outcome (Outcome.raised Error.provider_unavailable) = search moves_rules
  Moves-hangup_outcome (Outcome.raised _) = search moves_rules

  Moves-hangup : (provider : ℕ) (p : Option ℕ) → Moves k (hangup e provider p)
  unfolding hangup
  Moves-hangup provider p = search (moves_rules, Moves-ask e law, Moves-hangup_outcome)

  Moves-give_back :
      (pair : ReservationPair) (outcome : BorrowerReleaseOutcome)
      → Moves k (give_back e pair outcome)
  unfolding give_back
  Moves-give_back pair outcome = search (moves_rules, Moves-release_pair e law)

  Moves-after_attach :
      (campaign : Campaign) (pair : ReservationPair) (call_id : ℕ) (p : Option ℕ)
      (attached : Option Call)
      → Moves k (after_attach e campaign pair call_id p attached)
  unfolding after_attach
  Moves-after_attach campaign pair call_id p (some attached) = search moves_rules
  Moves-after_attach campaign pair call_id p none =
      search (moves_rules, Moves-hangup, Moves-transition_call e law, Moves-give_back)

  Moves-fail_originate :
      (pair : ReservationPair) (call_id : ℕ) (reason : Option String)
      → Moves k (fail_originate e pair call_id reason)
  unfolding fail_originate
  Moves-fail_originate pair call_id reason =
      search (moves_rules, Moves-transition_call e law, Moves-give_back)

  Moves-after_originate :
      (campaign : Campaign) (pair : ReservationPair) (call_id : ℕ) (r : Option OriginateResult)
      → Moves k (after_originate e campaign pair call_id r)
  unfolding after_originate
  Moves-after_originate campaign pair call_id none = search Moves-fail_originate
  Moves-after_originate campaign pair call_id (some result) =
      search
        (moves_rules, Moves-fail_originate, Moves-attach_provider_call_id e law, Moves-after_attach)

  Moves-after_initiated :
      (campaign : Campaign) (pair : ReservationPair) (call_id : ℕ) (initiated : Option Call)
      → Moves k (after_initiated e campaign pair call_id initiated)
  unfolding after_initiated
  Moves-after_initiated campaign pair call_id none = search Moves-give_back
  Moves-after_initiated campaign pair call_id (some initiated) =
      Moves-bind _ _ (Moves-transition_agent e law _ _ _ _ _ (λ _ leased. refl))
        (λ _. search (moves_rules, Moves-bind_call e law, Moves-originate, Moves-after_originate))

  Moves-after_create :
      (campaign : Campaign) (pair : ReservationPair) (call : Call)
      → Moves k (after_create e campaign pair call)
  unfolding after_create
  Moves-after_create campaign pair call =
      search (moves_rules, Moves-give_back, Moves-transition_call e law, Moves-after_initiated)

  Moves-place_call :
      (campaign : Campaign) (pair : ReservationPair) → Moves k (place_call e campaign pair)
  unfolding place_call
  Moves-place_call campaign pair = search (moves_rules, Moves-create_call e law, Moves-after_create)

  Moves-retry_gate :
      (campaign : Campaign) (pair : ReservationPair) → Moves k (retry_gate e campaign pair)
  unfolding retry_gate
  Moves-retry_gate campaign pair = search (moves_rules, Moves-should_retry e law)

  Moves-dial : (campaign : Campaign) (pair : ReservationPair) → Moves k (dial e campaign pair)
  unfolding dial
  Moves-dial campaign pair =
      search (moves_rules, Moves-retry_gate, Moves-place_call, Moves-give_back)

  Moves-compensate_outcome : (r : Outcome (Unit {0})) → Moves k (compensate_outcome e r)
  unfolding compensate_outcome
  Moves-compensate_outcome (Outcome.ok _) = search moves_rules
  Moves-compensate_outcome (Outcome.raised Error.mongo_error) = search moves_rules
  Moves-compensate_outcome (Outcome.raised Error.duplicate_key_error) = search moves_rules
  Moves-compensate_outcome (Outcome.raised Error.cancelled) = search moves_rules
  Moves-compensate_outcome (Outcome.raised _) = search moves_rules

  Moves-dial_outcome : (pair : ReservationPair) (r : Outcome Bool) → Moves k (dial_outcome e pair r)
  unfolding dial_outcome
  Moves-dial_outcome pair (Outcome.ok dialled) = search moves_rules
  Moves-dial_outcome pair (Outcome.raised Error.cancelled) =
      search (moves_rules, Moves-release_pair e law, Moves-compensate_outcome)
  Moves-dial_outcome pair (Outcome.raised _) = search moves_rules

  Moves-reserve_outcome : (r : Outcome (Option ReservationPair)) → Moves k (reserve_outcome e r)
  unfolding reserve_outcome
  Moves-reserve_outcome (Outcome.ok pair) = search moves_rules
  Moves-reserve_outcome (Outcome.raised Error.mongo_error) = search moves_rules
  Moves-reserve_outcome (Outcome.raised Error.duplicate_key_error) = search moves_rules
  Moves-reserve_outcome (Outcome.raised _) = search moves_rules

  Moves-dial_pair :
      (campaign : Campaign) (pair : Option ReservationPair) → Moves k (dial_pair e campaign pair)
  unfolding dial_pair
  Moves-dial_pair campaign none = search moves_rules
  Moves-dial_pair campaign (some pair) = search (moves_rules, Moves-dial, Moves-dial_outcome)

  Moves-allocate_round :
      (campaign : Campaign) (worker_id : ℕ) → Moves k (allocate_round e campaign worker_id)
  unfolding allocate_round
  Moves-allocate_round campaign worker_id =
      search (moves_rules, Moves-reserve_pair e law, Moves-reserve_outcome, Moves-dial_pair)

  -- after a round, the loop stops or goes on
  Moves-continue :
      (go : Bool) (m n : Action AllocationResult)
      → Moves k m
      → Moves k n
      → Moves k (elim go [ false ↦ m | true ↦ n ])
  Moves-continue true m n hm hn = hn
  Moves-continue false m n hm hn = hm

  Moves-allocate_rounds :
      (rounds : ℕ) (campaign : Campaign) (worker_id : ℕ) (c : AllocationResult) (consecutive : ℕ)
      → Moves k (allocate_rounds e rounds campaign worker_id c consecutive)
  unfolding allocate_rounds
  Moves-allocate_rounds zero campaign worker_id c consecutive = Moves-pure _
  Moves-allocate_rounds (suc rounds) campaign worker_id c consecutive =
      Moves-bind _ _ (Moves-allocate_round campaign worker_id) λ outcome.
        let next = count_round outcome c consecutive in
        Moves-continue next.2 _ _ (Moves-pure _)
          (Moves-allocate_rounds rounds campaign worker_id next.0 next.1)

  pub Moves-allocate :
      (campaign : Campaign) (approved worker_id : ℕ)
      → Moves k (allocate e campaign approved worker_id)
  unfolding allocate
  Moves-allocate campaign approved worker_id = Moves-allocate_rounds approved campaign worker_id _ 0
