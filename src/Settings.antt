-- ===== src/Settings.antt =====
-- app/config.py, the settings that the modelled code reads. A setting in seconds that the code
-- only turns into a time is a number of milliseconds where the source allows a fraction.
pub mod Doubles
use smart_dialer.Base.{ℕ, ◌+◌, ◌*◌, Bool, ltb}

-- Python's floats: the operations that the program calls.
pub record Floats (F : Type 0) : Type 0 where
  pub of_ℕ : ℕ → F
  pub add : F → F → F
  pub sub : F → F → F
  pub mul : F → F → F
  pub div : F → F → F
  pub lt : F → F → Bool
  pub eq : F → F → Bool
  -- neither infinite nor NaN: `math.floor` raises on these
  pub is_finite : F → Bool
  -- `int` and `math.floor`; no number that is floored here is negative, unless a setting is
  pub floor : F → ℕ
  pub round : F → ℕ
  -- the milliseconds of `timedelta(seconds=x)`
  pub timedelta_ms : F → ℕ
  -- the number with this pattern of 64 bits, as it is stored in a document
  pub of_bits : ℕ → F

pub record Settings (F : Type 0) : Type 0 where
  pub reservation_ttl_seconds : ℕ
  pub agent_heartbeat_timeout_seconds : ℕ
  pub call_stale_timeout_seconds : ℕ
  pub wrap_up_seconds : ℕ
  pub max_call_attempts : ℕ
  pub retry_backoff_base_seconds : ℕ
  pub safety_margin : F
  pub max_ringing_ratio : F
  pub max_snapshot_age_ms : ℕ
  pub availability_drop_threshold : F
  pub provider_timeout_ms : ℕ
  pub recovery_sweep_limit : ℕ
  pub health_window_ms : ℕ
  pub health_min_samples : ℕ
  pub unhealthy_consecutive_failures : ℕ
  pub unhealthy_timeout_rate : F
  pub degraded_failure_rate : F
  pub degraded_latency_ms : F
  pub high_failure_rate_threshold : F
  pub soon_free_weight : F
  pub min_answer_rate : F
  pub max_answer_rate : F
  pub answer_rate_window_ms : ℕ
  pub volatility_threshold : F
  pub volatility_factor : F
  pub max_request_per_tick : ℕ

-- `timedelta(seconds=n)`
abbrev pub seconds : ℕ → ℕ
seconds n = n * 1000

-- `Settings.check_recovery_timeout_invariant`: true if construction does not raise
unfoldable pub check_recovery_timeout_invariant : {F : Type 0} → Settings F → Bool
check_recovery_timeout_invariant s =
    ltb (s.provider_timeout_ms + seconds s.reservation_ttl_seconds)
      (seconds s.call_stale_timeout_seconds)
