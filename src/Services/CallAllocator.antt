-- ===== src/Services/CallAllocator.antt =====
-- app/services/call_allocator.py
use smart_dialer.Base.{
  ℕ, zero, suc, ◌+◌, Bool, true, false, String, Option, none, some, not, ltb, leb, if◌then◌else◌,
}
use smart_dialer.Errors.{Error, Outcome}
use smart_dialer.Model.{Call, Campaign}
use smart_dialer.Model.Enums.{AgentState, CallState, same_call_state}
use smart_dialer.StateMachines.Agent.{TransitionActor}
use smart_dialer.Repositories.Agents.{transition_agent, bind_call}
use smart_dialer.Repositories.Borrowers.{BorrowerReleaseOutcome}
use smart_dialer.Repositories.Calls.{create_call, transition_call, attach_provider_call_id}
use smart_dialer.Services.ProviderHealth.{record_originate}
use smart_dialer.Services.Retry.{should_retry}
use smart_dialer.Services.Reservation.{ReservationPair, reserve_pair, release_pair}
use smart_dialer.World.{
  Counters, OriginateRequest, OriginateResult, Action, Env, ◌>>=◌, ◌>>◌, pure, raise, attempt,
  count_event, ask,
}

pub record AllocationResult : Type 0 where
  pub attempted : ℕ
  pub allocated : ℕ
  pub failed : ℕ
  pub contended : ℕ

-- MAX_CONSECUTIVE_CONTENTIONS
abbrev pub max_consecutive_contentions : ℕ
max_consecutive_contentions = 3

abbrev suppressed : Counters → Counters
suppressed c = record c { retry_suppressed = c.retry_suppressed + 1 }

abbrev retried : Counters → Counters
retried c = record c { retry_attempts = c.retry_attempts + 1 }

abbrev provider_failed : Counters → Counters
provider_failed c = record c { provider_failures = c.provider_failures + 1 }

-- The body of the loop on its counters: contention, a call that was placed, one that was not. The
-- last part says whether the loop goes on.
unfoldable pub count_round : Option Bool → AllocationResult → ℕ → AllocationResult × ℕ × Bool
count_round none c consecutive = (
  record c { attempted = c.attempted + 1; contended = c.contended + 1 },
  consecutive + 1,
  not (leb max_consecutive_contentions (consecutive + 1)),
)
count_round (some true) c consecutive =
    (record c { attempted = c.attempted + 1; allocated = c.allocated + 1 }, 0, true)
count_round (some false) c consecutive =
    (record c { attempted = c.attempted + 1; failed = c.failed + 1 }, 0, true)

module _ {F : Type 0} (e : Env F) where
  -- the handlers of `_originate`: a timeout returns None, a rejection a result
  unfoldable pub originate_outcome : ℕ → Outcome OriginateResult → Action (Option OriginateResult)
  originate_outcome provider_name (Outcome.ok result) = do
    record_originate e provider_name result.accepted result.latency_ms false
    pure (some result)
  originate_outcome provider_name (Outcome.raised Error.provider_timeout) = do
    record_originate e provider_name false e.settings.provider_timeout_ms true
    pure none
  originate_outcome provider_name (Outcome.raised (Error.provider_rejected reason)) = do
    record_originate e provider_name false 0 false
    pure (
        some (record {
          accepted = false;
          latency_ms = 0;
          provider_call_id = none;
          error_code = some reason;
        }))
  originate_outcome provider_name (Outcome.raised x) = raise x

  unfoldable pub originate : Campaign → ReservationPair → ℕ → Action (Option OriginateResult)
  unfolding originate_outcome
  originate campaign pair call_id =
      let request : OriginateRequest = record {
        call_id = call_id;
        campaign_id = campaign.id;
        phone_number = pair.borrower.phone_number;
        timeout_ms = e.settings.provider_timeout_ms;
      } in
      attempt (ask e (λ n. e.providers.originate_call n campaign.provider_name request))
        (originate_outcome campaign.provider_name)

  -- `_hangup` swallows a provider's error
  unfoldable pub hangup_outcome : Outcome (Unit {0}) → Action (Unit {0})
  hangup_outcome (Outcome.ok _) = pure tt
  hangup_outcome (Outcome.raised Error.provider_timeout) = pure tt
  hangup_outcome (Outcome.raised (Error.provider_rejected reason)) = pure tt
  hangup_outcome (Outcome.raised Error.provider_unavailable) = pure tt
  hangup_outcome (Outcome.raised x) = raise x

  unfoldable pub hangup : ℕ → Option ℕ → Action (Unit {0})
  unfolding hangup_outcome
  hangup provider_name provider_call_id =
      attempt (ask e (λ n. e.providers.hangup_call n provider_name provider_call_id)) hangup_outcome

  -- `_release`, then `return False`
  unfoldable pub give_back : ReservationPair → BorrowerReleaseOutcome → Action Bool
  give_back pair outcome = do release_pair e pair outcome; pure false

  -- after the provider accepted the call: attach its id, or hang up and fail the call
  unfoldable pub after_attach :
      Campaign → ReservationPair → ℕ → Option ℕ → Option Call → Action Bool
  unfolding give_back hangup
  after_attach campaign pair call_id provider_call_id (some attached) = pure true
  after_attach campaign pair call_id provider_call_id none = do
    hangup campaign.provider_name provider_call_id
    transition_call e call_id CallState.failed (some "provider_call_id_conflict")
    give_back pair BorrowerReleaseOutcome.retry

  -- the call was not placed
  unfoldable pub fail_originate : ReservationPair → ℕ → Option String → Action Bool
  unfolding give_back
  fail_originate pair call_id reason = do
    count_event provider_failed
    transition_call e call_id CallState.failed reason
    give_back pair BorrowerReleaseOutcome.retry

  unfoldable pub after_originate :
      Campaign → ReservationPair → ℕ → Option OriginateResult → Action Bool
  unfolding fail_originate after_attach
  after_originate campaign pair call_id none = fail_originate pair call_id (some "provider_timeout")
  after_originate campaign pair call_id (some result) =
      if not result.accepted then fail_originate pair call_id result.error_code else do
        attached ← attach_provider_call_id e call_id result.provider_call_id
        after_attach campaign pair call_id result.provider_call_id attached

  unfoldable pub after_initiated : Campaign → ReservationPair → ℕ → Option Call → Action Bool
  unfolding after_originate give_back originate
  after_initiated campaign pair call_id none = give_back pair BorrowerReleaseOutcome.released
  after_initiated campaign pair call_id (some initiated) = do
    transition_agent e pair.agent.id AgentState.reserved AgentState.dialing
        TransitionActor.allocator pair.agent.state_version
    bind_call e pair.agent.id pair.worker_id call_id
    result ← originate campaign pair call_id
    after_originate campaign pair call_id result

  unfoldable pub after_create : Campaign → ReservationPair → Call → Action Bool
  unfolding after_initiated give_back
  after_create campaign pair call =
      if not (same_call_state call.state CallState.queued)
      then give_back pair BorrowerReleaseOutcome.released
      else do
        transition_call e call.id CallState.reserved none
        initiated ← transition_call e call.id CallState.initiated none
        after_initiated campaign pair call.id initiated

  -- `_dial` behind the gate for retries
  unfoldable pub place_call : Campaign → ReservationPair → Action Bool
  unfolding after_create
  place_call campaign pair = do
    (if ltb 0 pair.borrower.attempt_count then count_event retried else pure tt)
    call ←
        create_call e campaign.id pair.agent.id pair.borrower.id campaign.provider_name
          pair.worker_id (pair.borrower.attempt_count + 1) none
    after_create campaign pair call

  -- the gate: a borrower that was dialled before waits until the retry service lets it pass
  unfoldable pub retry_gate : Campaign → ReservationPair → Action Bool
  retry_gate campaign pair =
      if ltb 0 pair.borrower.attempt_count
      then should_retry e pair.borrower campaign.provider_name
      else pure true

  unfoldable pub dial : Campaign → ReservationPair → Action Bool
  unfolding retry_gate place_call give_back
  dial campaign pair = do
    open_gate ← retry_gate campaign pair
    (if open_gate
        then place_call campaign pair
        else do count_event suppressed; give_back pair BorrowerReleaseOutcome.released)

  -- `_compensate_cancelled_dial`: a database error is logged
  unfoldable pub compensate_outcome : Outcome (Unit {0}) → Action (Unit {0})
  compensate_outcome (Outcome.ok _) = pure tt
  compensate_outcome (Outcome.raised Error.mongo_error) = pure tt
  compensate_outcome (Outcome.raised Error.duplicate_key_error) = pure tt
  compensate_outcome (Outcome.raised Error.cancelled) = pure tt
  compensate_outcome (Outcome.raised x) = raise x

  unfoldable pub dial_outcome : ReservationPair → Outcome Bool → Action Bool
  unfolding compensate_outcome
  dial_outcome pair (Outcome.ok dialled) = pure dialled
  dial_outcome pair (Outcome.raised Error.cancelled) = do
    attempt (release_pair e pair BorrowerReleaseOutcome.released) compensate_outcome
    raise Error.cancelled
  dial_outcome pair (Outcome.raised x) = raise x

  -- `_reserve_pair`: a PyMongoError is logged and counts as contention
  unfoldable pub reserve_outcome :
      Outcome (Option ReservationPair) → Action (Option ReservationPair)
  reserve_outcome (Outcome.ok pair) = pure pair
  reserve_outcome (Outcome.raised Error.mongo_error) = pure none
  reserve_outcome (Outcome.raised Error.duplicate_key_error) = pure none
  reserve_outcome (Outcome.raised x) = raise x

  -- One round of the loop: None if no pair was reserved, else whether the call was placed.
  unfoldable pub dial_pair : Campaign → Option ReservationPair → Action (Option Bool)
  unfolding dial dial_outcome
  dial_pair campaign none = pure none
  dial_pair campaign (some pair) = do
    dialled ← attempt (dial campaign pair) (dial_outcome pair)
    pure (some dialled)

  unfoldable pub allocate_round : Campaign → ℕ → Action (Option Bool)
  unfolding dial_pair reserve_outcome
  allocate_round campaign worker_id = do
    pair ← attempt (reserve_pair e campaign.id worker_id) reserve_outcome
    dial_pair campaign pair

  -- The loop: the rounds that are left, what was counted so far, and the contentions in a row.
  -- `count_round` says how the counts change and whether the loop goes on.
  unfoldable pub allocate_rounds : ℕ → Campaign → ℕ → AllocationResult → ℕ → Action AllocationResult
  unfolding allocate_round
  allocate_rounds zero campaign worker_id counts consecutive = pure counts
  allocate_rounds (suc rounds) campaign worker_id counts consecutive =
      allocate_round campaign worker_id >>= λ outcome.
      let next = count_round outcome counts consecutive in
      elim next.2 [
        | false ↦ pure next.0
        | true ↦ allocate_rounds rounds campaign worker_id next.0 next.1
      ]

  -- `approved` is the number that the safety decision allows
  unfoldable pub allocate : Campaign → ℕ → ℕ → Action AllocationResult
  unfolding allocate_rounds
  allocate campaign approved worker_id =
      allocate_rounds approved campaign worker_id
        (record { attempted = 0; allocated = 0; failed = 0; contended = 0 }) 0
