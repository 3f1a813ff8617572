-- ===== src/Model/Enums.antt =====
-- app/models/enums.py. Two enumerations share some member names, so a constructor is written
-- behind its type.
use smart_dialer.Base.{ℕ, Bool, true, false, ◌==◌, ◌≡◌, arith}

pub data AgentState : Type 0 where
  offline available reserved dialing connected wrap_up paused : AgentState

pub data CallState : Type 0 where
  queued reserved initiated ringing answered connected completed failed cancelled : CallState

pub data BorrowerStatus : Type 0 where
  pending reserved in_call contacted failed exhausted dnc : BorrowerStatus

pub data CampaignStatus : Type 0 where
  draft running paused stopped : CampaignStatus

pub data DialingMode : Type 0 where
  progressive predictive : DialingMode

pub data ProviderHealthStatus : Type 0 where
  healthy degraded unhealthy : ProviderHealthStatus

pub data SafetyVerdict : Type 0 where
  approved reduced rejected fallback_progressive : SafetyVerdict

pub data EventProcessingStatus : Type 0 where
  processed duplicate_ignored stale_ignored invalid_ignored : EventProcessingStatus

-- CALL_STATE_RANK
abbrev pub call_state_rank : CallState → ℕ
call_state_rank CallState.queued = 0
call_state_rank CallState.reserved = 1
call_state_rank CallState.initiated = 2
call_state_rank CallState.ringing = 3
call_state_rank CallState.answered = 4
call_state_rank CallState.connected = 5
call_state_rank CallState.completed = 6
call_state_rank CallState.failed = 6
call_state_rank CallState.cancelled = 6

-- TERMINAL_CALL_STATES
abbrev pub terminal_call_state : CallState → Bool
terminal_call_state CallState.completed = true
terminal_call_state CallState.failed = true
terminal_call_state CallState.cancelled = true
terminal_call_state _ = false

-- Enumeration members are compared by identity: a number for each member.
abbrev agent_code : AgentState → ℕ
agent_code AgentState.offline = 0
agent_code AgentState.available = 1
agent_code AgentState.reserved = 2
agent_code AgentState.dialing = 3
agent_code AgentState.connected = 4
agent_code AgentState.wrap_up = 5
agent_code AgentState.paused = 6

abbrev call_code : CallState → ℕ
call_code CallState.queued = 0
call_code CallState.reserved = 1
call_code CallState.initiated = 2
call_code CallState.ringing = 3
call_code CallState.answered = 4
call_code CallState.connected = 5
call_code CallState.completed = 6
call_code CallState.failed = 7
call_code CallState.cancelled = 8

abbrev campaign_code : CampaignStatus → ℕ
campaign_code CampaignStatus.draft = 0
campaign_code CampaignStatus.running = 1
campaign_code CampaignStatus.paused = 2
campaign_code CampaignStatus.stopped = 3

abbrev status_code : BorrowerStatus → ℕ
status_code BorrowerStatus.pending = 0
status_code BorrowerStatus.reserved = 1
status_code BorrowerStatus.in_call = 2
status_code BorrowerStatus.contacted = 3
status_code BorrowerStatus.failed = 4
status_code BorrowerStatus.exhausted = 5
status_code BorrowerStatus.dnc = 6

abbrev pub same_agent_state : AgentState → AgentState → Bool
same_agent_state a b = agent_code a == agent_code b

abbrev pub same_call_state : CallState → CallState → Bool
same_call_state a b = call_code a == call_code b

abbrev pub same_campaign_status : CampaignStatus → CampaignStatus → Bool
same_campaign_status a b = campaign_code a == campaign_code b

abbrev verdict_code : SafetyVerdict → ℕ
verdict_code SafetyVerdict.approved = 0
verdict_code SafetyVerdict.reduced = 1
verdict_code SafetyVerdict.rejected = 2
verdict_code SafetyVerdict.fallback_progressive = 3

abbrev pub same_verdict : SafetyVerdict → SafetyVerdict → Bool
same_verdict a b = verdict_code a == verdict_code b

abbrev pub same_status : BorrowerStatus → BorrowerStatus → Bool
same_status a b = status_code a == status_code b

pub same_agent_state→≡ : (a b : AgentState) → same_agent_state a b ≡ true → a ≡ b
same_agent_state→≡ a b h = ground arith

pub same_status→≡ : (a b : BorrowerStatus) → same_status a b ≡ true → a ≡ b
same_status→≡ a b h = ground arith
