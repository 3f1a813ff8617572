-- ===== src/Model.antt =====
-- app/models: the enumerations and the stored documents. An identifier (a uuid, or the name of a
-- worker or a provider) is only compared, so it is a number; a time is in milliseconds.
pub mod Enums
use smart_dialer.Base.{ℕ, Bool, false, String, Option, none, some, ◌==◌, ◌&&◌, ◌||◌, holds_value}
use smart_dialer.Errors.{Error}
use smart_dialer.Model.Enums.{
  AgentState, CallState, BorrowerStatus, CampaignStatus, DialingMode, EventProcessingStatus,
  terminal_call_state, call_state_rank,
}

-- agent.py
pub record Agent : Type 0 where
  pub id : ℕ
  pub campaign_id : ℕ
  pub name : String
  pub state : AgentState
  pub state_version : ℕ
  pub reserved_by : Option ℕ
  pub reserved_at : Option ℕ
  pub lease_expires_at : Option ℕ
  pub current_call_id : Option ℕ
  pub last_heartbeat_at : Option ℕ
  pub state_changed_at : ℕ
  pub busy_time_ms : ℕ
  pub available_time_ms : ℕ
  pub connected_time_ms : ℕ
  pub wrap_up_time_ms : ℕ
  pub created_at : ℕ

-- borrower.py
pub record Borrower : Type 0 where
  pub id : ℕ
  pub campaign_id : ℕ
  pub name : String
  pub phone_number : String
  pub status : BorrowerStatus
  pub state_version : ℕ
  pub reserved_by : Option ℕ
  pub reserved_at : Option ℕ
  pub lease_expires_at : Option ℕ
  pub attempt_count : ℕ
  pub last_attempt_at : Option ℕ
  pub next_eligible_at : ℕ
  pub created_at : ℕ

-- campaign.py. The program reads the baseline answer rate of the pacing configuration, and no
-- more of it, and nothing of the statistics. The rate is a float, by its 64 bits.
pub record Campaign : Type 0 where
  pub id : ℕ
  pub name : String
  pub status : CampaignStatus
  pub dialing_mode : DialingMode
  pub max_concurrent_calls : ℕ
  pub provider_name : ℕ
  pub baseline_answer_rate : ℕ
  pub created_at : ℕ
  pub updated_at : ℕ

-- The four parts that `build_idempotency_key` joins by ":"; no identifier holds a colon.
pub record IdempotencyKey : Type 0 where
  pub campaign_id : ℕ
  pub agent_id : ℕ
  pub borrower_id : ℕ
  pub attempt : ℕ

abbrev pub build_idempotency_key : ℕ → ℕ → ℕ → ℕ → IdempotencyKey
build_idempotency_key campaign_id agent_id borrower_id attempt = record {
  campaign_id = campaign_id;
  agent_id = agent_id;
  borrower_id = borrower_id;
  attempt = attempt;
}

abbrev pub same_key : IdempotencyKey → IdempotencyKey → Bool
same_key a b =
    a.campaign_id == b.campaign_id
    && a.agent_id == b.agent_id
    && a.borrower_id == b.borrower_id
    && a.attempt == b.attempt

-- call.py
pub record Call : Type 0 where
  pub id : ℕ
  pub campaign_id : ℕ
  pub agent_id : ℕ
  pub borrower_id : ℕ
  pub state : CallState
  pub state_rank : ℕ
  pub terminal : Bool
  pub provider_name : ℕ
  pub provider_call_id : Option ℕ
  pub idempotency_key : IdempotencyKey
  pub created_by_worker : ℕ
  pub attempt : ℕ
  pub failure_reason : Option String
  pub retry_of_call_id : Option ℕ
  pub created_at : ℕ
  pub initiated_at : Option ℕ
  pub ringing_at : Option ℕ
  pub answered_at : Option ℕ
  pub connected_at : Option ℕ
  pub ended_at : Option ℕ
  pub updated_at : ℕ

-- `Call.derive_state_rank_and_terminal`, which runs whenever a document is read
abbrev pub derive_state_rank_and_terminal : Call → Call
derive_state_rank_and_terminal c = record c {
  state_rank = call_state_rank c.state;
  terminal = terminal_call_state c.state;
}

-- The text of `applied_transition`: "OLD->NEW", or "error:KIND".
pub data AppliedTransition : Type 0 where
  moved : CallState → CallState → AppliedTransition
  error_kind : Error → AppliedTransition

-- provider_event.py
pub record EventDocument : Type 0 where
  pub provider_name : ℕ
  pub provider_event_id : ℕ
  pub provider_call_id : ℕ
  pub event_type : String
  pub provider_timestamp : ℕ
  pub received_at : ℕ
  pub processing_status : Option EventProcessingStatus
  pub applied_transition : Option AppliedTransition

-- app/db_indexes.py: two documents that a unique index keeps apart. The key `_id` is unique in
-- every collection.
abbrev pub agent_clash : Agent → Agent → Bool
agent_clash a b = a.id == b.id

abbrev pub campaign_clash : Campaign → Campaign → Bool
campaign_clash a b = a.id == b.id

abbrev pub borrower_clash : Borrower → Borrower → Bool
borrower_clash a b = a.id == b.id

-- the index on the provider's call id is partial: it skips documents that have none
abbrev pub same_provider_call : Option ℕ → Option ℕ → Bool
same_provider_call none b = false
same_provider_call (some a) b = holds_value b a

abbrev pub call_clash : Call → Call → Bool
call_clash a b =
    a.id == b.id
    || same_key a.idempotency_key b.idempotency_key
    || (a.provider_name == b.provider_name
        && same_provider_call a.provider_call_id b.provider_call_id)

abbrev pub event_clash : EventDocument → EventDocument → Bool
event_clash a b = a.provider_name == b.provider_name && a.provider_event_id == b.provider_event_id
