-- ===== src/Examples/Environment.antt =====
-- A worker's environment: the database in memory, a clock that moves on a second with each
-- request, providers that accept every call, and numbers of thousandths for Python's floats.
use Prim.Native.Nat.{◌/◌}
use smart_dialer.Base.{ℕ, ◌+◌, ◌-◌, ◌*◌, ◌==◌, true, none, some, [], ◌∷◌, ltb, here}
use smart_dialer.Errors.{Outcome}
use smart_dialer.Model.{
  Agent, Borrower, Call, agent_clash, borrower_clash, call_clash, event_clash, campaign_clash,
  Campaign, build_idempotency_key,
}
use smart_dialer.Model.Enums.{AgentState, BorrowerStatus, CallState, CampaignStatus, DialingMode}
use smart_dialer.Settings.{Settings, Floats}
use smart_dialer.Store.{Reply}
use smart_dialer.Lifecycle.Moves.{IsEnv}
use smart_dialer.World.{Database, World, Env, Providers, ProviderCallStatus}
use smart_dialer.Examples.Memory.{memory, memory-IsCollection}

-- a number stands for itself divided by 1000
abbrev pub thousandths : Floats ℕ
thousandths = record {
  of_ℕ = λ n. n * 1000;
  add = λ a b. a + b;
  sub = λ a b. a - b;
  mul = λ a b. a * b / 1000;
  div = λ a b. a * 1000 / b;
  lt = ltb;
  eq = λ a b. a == b;
  is_finite = λ a. true;
  floor = λ a. a / 1000;
  round = λ a. (a + 500) / 1000;
  timedelta_ms = λ a. a;
  of_bits = λ a. a;
}

-- the defaults of app/config.py
abbrev pub defaults : Settings ℕ
defaults = record {
  reservation_ttl_seconds = 30;
  agent_heartbeat_timeout_seconds = 30;
  call_stale_timeout_seconds = 120;
  wrap_up_seconds = 10;
  max_call_attempts = 3;
  retry_backoff_base_seconds = 60;
  safety_margin = 850;
  max_ringing_ratio = 2000;
  max_snapshot_age_ms = 5000;
  availability_drop_threshold = 250;
  provider_timeout_ms = 5000;
  recovery_sweep_limit = 500;
  health_window_ms = 60000;
  health_min_samples = 10;
  unhealthy_consecutive_failures = 5;
  unhealthy_timeout_rate = 500;
  degraded_failure_rate = 200;
  degraded_latency_ms = 3000000;
  high_failure_rate_threshold = 300;
  soon_free_weight = 500;
  min_answer_rate = 50;
  max_answer_rate = 950;
  answer_rate_window_ms = 120000;
  volatility_threshold = 150;
  volatility_factor = 600;
  max_request_per_tick = 50;
}

abbrev pub accepting : Providers
accepting = record {
  originate_call = λ n provider request.
      Outcome.ok (record {
        accepted = true;
        latency_ms = 100;
        provider_call_id = some n;
        error_code = none;
      });
  hangup_call = λ n provider call. Outcome.ok tt;
  get_call_status = λ n provider call. Outcome.ok ProviderCallStatus.completed;
}

abbrev pub env : Env ℕ
env = record {
  settings = defaults;
  floats = thousandths;
  clock = λ n. 1000000 + n * 1000;
  monotonic = λ n. 1000000 + n * 1000;
  new_id = λ n. 100 + n;
  agents_db = memory agent_clash;
  borrowers_db = memory borrower_clash;
  calls_db = memory call_clash;
  events_db = memory event_clash;
  campaigns_db = memory campaign_clash;
  providers = accepting;
  decisions_db = λ n. Reply.reply tt;
  verdicts_db = λ n campaign_id. Reply.reply [];
  average = λ pairs. 20000000;
  others = λ n s. s;
}

pub env-IsEnv : IsEnv env
env-IsEnv = record {
  agents_law = memory-IsCollection agent_clash;
  borrowers_law = memory-IsCollection borrower_clash;
  calls_law = memory-IsCollection call_clash;
  events_law = memory-IsCollection event_clash;
  campaigns_law = memory-IsCollection campaign_clash;
  others_law = λ n s. here;
}

abbrev pub agent_1 : Agent
agent_1 = record {
  id = 1;
  campaign_id = 7;
  name = "Asha";
  state = AgentState.available;
  state_version = 4;
  reserved_by = none;
  reserved_at = none;
  lease_expires_at = none;
  current_call_id = none;
  last_heartbeat_at = some 999000;
  state_changed_at = 900000;
  busy_time_ms = 60000;
  available_time_ms = 30000;
  connected_time_ms = 50000;
  wrap_up_time_ms = 10000;
  created_at = 500000;
}

-- one attempt was made, and the next is due
abbrev pub borrower_1 : Borrower
borrower_1 = record {
  id = 1;
  campaign_id = 7;
  name = "Ravi";
  phone_number = "+910000000001";
  status = BorrowerStatus.pending;
  state_version = 2;
  reserved_by = none;
  reserved_at = none;
  lease_expires_at = none;
  attempt_count = 1;
  last_attempt_at = some 800000;
  next_eligible_at = 920000;
  created_at = 500000;
}

-- a borrower who was reached
abbrev pub borrower_2 : Borrower
borrower_2 = record {
  id = 2;
  campaign_id = 7;
  name = "Mira";
  phone_number = "+910000000002";
  status = BorrowerStatus.contacted;
  state_version = 3;
  reserved_by = none;
  reserved_at = none;
  lease_expires_at = none;
  attempt_count = 1;
  last_attempt_at = some 850000;
  next_eligible_at = 500000;
  created_at = 500000;
}

-- the call by which that borrower was reached
abbrev pub call_1 : Call
call_1 = record {
  id = 1;
  campaign_id = 7;
  agent_id = 1;
  borrower_id = 2;
  state = CallState.completed;
  state_rank = 6;
  terminal = true;
  provider_name = 5;
  provider_call_id = some 40;
  idempotency_key = build_idempotency_key 7 1 2 1;
  created_by_worker = 9;
  attempt = 1;
  failure_reason = none;
  retry_of_call_id = none;
  created_at = 840000;
  initiated_at = some 841000;
  ringing_at = some 842000;
  answered_at = some 845000;
  connected_at = some 846000;
  ended_at = some 850000;
  updated_at = 850000;
}

-- its stored answer rate is 0.3
abbrev pub campaign_7 : Campaign
campaign_7 = record {
  id = 7;
  name = "North";
  status = CampaignStatus.running;
  dialing_mode = DialingMode.predictive;
  max_concurrent_calls = 10;
  provider_name = 5;
  baseline_answer_rate = 300;
  created_at = 400000;
  updated_at = 400000;
}

abbrev pub database : Database
database = record {
  agents = agent_1 ∷ [];
  borrowers = borrower_1 ∷ borrower_2 ∷ [];
  calls = call_1 ∷ [];
  events = [];
  campaigns = campaign_7 ∷ [];
}

abbrev pub start : World
start = record {
  db = database;
  samples = [];
  events_received = [];
  counters = record {
    reservation_contention = 0;
    retry_suppressed = 0;
    retry_attempts = 0;
    provider_failures = 0;
  };
  previous_available = [];
  snapshot_available = [];
  peak_concurrent = [];
  moment = 0;
}
