-- ===== src/Lifecycle/Steps.antt =====
-- One change of one document: an agent's along a transition that some actor is allowed, a
-- borrower's along an edge, within its budget of attempts and with its backoff, a call's upwards in
-- rank.
use smart_dialer.Settings.{seconds}
use smart_dialer.Base.{
  ℕ, suc, ◌+◌, ◌≤◌, ◌<◌, ◌≡◌, Bool, true, false, Option, none, some, is_some, ◌*◌, ◌^◌,
}
use smart_dialer.Model.{Agent, Borrower, Call, EventDocument, Campaign}
use smart_dialer.Model.Enums.{AgentState, BorrowerStatus, CallState}
use smart_dialer.StateMachines.Agent.{TransitionActor, Validation, validate_transition}
use smart_dialer.StateMachines.Call.{can_transition, rank, is_terminal}

-- A worker's lease stands behind the agent in these states.
abbrev pub needs_lease : AgentState → Bool
needs_lease AgentState.reserved = true
needs_lease AgentState.dialing = true
needs_lease AgentState.connected = true
needs_lease _ = false

abbrev pub HasLease : Agent → Type 0
HasLease d =
    needs_lease d.state ≡ true
    → (is_some d.reserved_by ≡ true) × (is_some d.lease_expires_at ≡ true)

-- The time in calls and in wrap-up is part of the busy time.
abbrev pub IsAccounted : Agent → Type 0
IsAccounted d = d.connected_time_ms + d.wrap_up_time_ms ≤ d.busy_time_ms

-- The state is left alone; or some actor is allowed the transition, and the version goes up by 1.
pub data AgentProgress (d d' : Agent) : Type 0 where
  kept : d'.state ≡ d.state → d'.state_version ≡ d.state_version → AgentProgress d d'
  moved :
      (actor : TransitionActor)
      → validate_transition d.state d'.state actor ≡ Validation.valid
      → d'.state_version ≡ suc d.state_version
      → AgentProgress d d'

pub record AgentStep (d d' : Agent) : Type 0 where
  pub same_id : d'.id ≡ d.id
  pub same_campaign : d'.campaign_id ≡ d.campaign_id
  pub progress : AgentProgress d d'
  pub lease : HasLease d → HasLease d'
  pub busy : d.busy_time_ms ≤ d'.busy_time_ms
  pub connected : d.connected_time_ms ≤ d'.connected_time_ms
  pub accounted : IsAccounted d → IsAccounted d'

-- The borrower may still be dialled, or is being dialled.
abbrev pub is_open : BorrowerStatus → Bool
is_open BorrowerStatus.pending = true
is_open BorrowerStatus.reserved = true
is_open BorrowerStatus.in_call = true
is_open _ = false

abbrev pub borrower_edge : BorrowerStatus → BorrowerStatus → Bool
borrower_edge BorrowerStatus.pending BorrowerStatus.reserved = true
borrower_edge BorrowerStatus.reserved BorrowerStatus.pending = true
borrower_edge BorrowerStatus.reserved BorrowerStatus.contacted = true
borrower_edge BorrowerStatus.reserved BorrowerStatus.exhausted = true
borrower_edge BorrowerStatus.in_call BorrowerStatus.pending = true
borrower_edge BorrowerStatus.in_call BorrowerStatus.contacted = true
borrower_edge BorrowerStatus.in_call BorrowerStatus.exhausted = true
borrower_edge _ _ = false

abbrev pub HasBudget : ℕ → Borrower → Type 0
HasBudget max_attempts d = is_open d.status ≡ true → d.attempt_count < max_attempts

abbrev pub IsSpent : ℕ → Borrower → Type 0
IsSpent max_attempts d = d.status ≡ BorrowerStatus.exhausted → max_attempts ≤ d.attempt_count

abbrev pub HeldExactly : Borrower → Type 0
HeldExactly d =
    ((d.status ≡ BorrowerStatus.pending) → is_some d.reserved_by ≡ false)
    × ((d.status ≡ BorrowerStatus.reserved) → is_some d.reserved_by ≡ true)

-- `max_call_attempts` and `retry_backoff_base_seconds`
pub record RetryPolicy : Type 0 where
  pub max_attempts : ℕ
  pub backoff_base_seconds : ℕ

-- The borrower is eligible again when the backoff after its last attempt has passed.
abbrev pub WaitsAfter : Option ℕ → (backoff next_eligible_at : ℕ) → Type 0
WaitsAfter none backoff next_eligible_at = ⊥
WaitsAfter (some t) backoff next_eligible_at = next_eligible_at ≡ t + seconds backoff

pub record BorrowerStep (policy : RetryPolicy) (d d' : Borrower) : Type 0 where
  pub same_id : d'.id ≡ d.id
  pub edge : borrower_edge d.status d'.status ≡ true
  pub version : d'.state_version ≡ suc d.state_version
  pub counted : d.attempt_count ≤ d'.attempt_count
  pub counted_once : d'.attempt_count ≤ suc d.attempt_count
  pub budget : HasBudget policy.max_attempts d → HasBudget policy.max_attempts d'
  pub spent : d'.status ≡ BorrowerStatus.exhausted → policy.max_attempts ≤ d'.attempt_count
  pub waits :
      d'.status ≡ BorrowerStatus.pending
      → d.attempt_count < d'.attempt_count
      → WaitsAfter d'.last_attempt_at
          (policy.backoff_base_seconds * 2 ^ d.attempt_count)
          d'.next_eligible_at
  pub held : HeldExactly d'

-- The derived fields agree with the state.
abbrev pub IsConsistent : Call → Type 0
IsConsistent d = (d.state_rank ≡ rank d.state) × (d.terminal ≡ is_terminal d.state)

-- The call's state is left alone; or the call was not over, and its rank goes up. The write does not
-- look at the table of transitions.
pub data CallProgress (d d' : Call) : Type 0 where
  kept : d'.state ≡ d.state → CallProgress d d'
  moved : d.terminal ≡ false → d.state_rank < rank d'.state → CallProgress d d'

-- The state is left alone, or the table has the transition, or the call was not dialled yet: then a
-- provider's report may skip the states between, which the table does not permit.
pub data IsLegal (d d' : Call) : Type 0 where
  kept : d'.state ≡ d.state → IsLegal d d'
  permitted : can_transition d.state d'.state ≡ true → IsLegal d d'
  undialled : rank d.state < rank CallState.initiated → IsLegal d d'

pub record CallStep (d d' : Call) : Type 0 where
  pub same_id : d'.id ≡ d.id
  pub same_agent : d'.agent_id ≡ d.agent_id
  pub same_borrower : d'.borrower_id ≡ d.borrower_id
  pub same_worker : d'.created_by_worker ≡ d.created_by_worker
  pub same_provider : d'.provider_name ≡ d.provider_name
  pub progress : CallProgress d d'
  pub consistent : IsConsistent d → IsConsistent d'
  pub legal : IsConsistent d → IsLegal d d'
  pub attached : (p : ℕ) → d.provider_call_id ≡ some p → d'.provider_call_id ≡ some p

-- A campaign's provider, cap and baseline answer rate are fixed when it is created.
pub record CampaignStep (d d' : Campaign) : Type 0 where
  pub same_id : d'.id ≡ d.id
  pub same_provider : d'.provider_name ≡ d.provider_name
  pub same_cap : d'.max_concurrent_calls ≡ d.max_concurrent_calls
  pub same_baseline : d'.baseline_answer_rate ≡ d.baseline_answer_rate

pub record EventStep (d d' : EventDocument) : Type 0 where
  pub same_provider : d'.provider_name ≡ d.provider_name
  pub same_event : d'.provider_event_id ≡ d.provider_event_id
