-- ===== src/Safety/Fallback.antt =====
-- app/safety/fallback.py
use smart_dialer.Base.{ℕ, Bool, true, false, not, Option, none, some, ltb, if◌then◌else◌}
use smart_dialer.Model.Enums.{ProviderHealthStatus}
use smart_dialer.Settings.{Floats}

-- the FALLBACK_ constants, and "evaluation_error"
pub data FallbackReason : Type 0 where
  provider_degraded availability_drop excessive_ringing high_failure_rate stale_state
        evaluation_error :
      FallbackReason

pub record FallbackInputs (F : Type 0) : Type 0 where
  pub provider_status : ProviderHealthStatus
  pub availability_drop_ratio : F
  pub availability_drop_threshold : F
  pub ringing_calls : ℕ
  pub ringing_ceiling : ℕ
  pub call_failure_rate : F
  pub failure_rate_threshold : F
  pub snapshot_is_stale : Bool

abbrev pub is_healthy : ProviderHealthStatus → Bool
is_healthy ProviderHealthStatus.healthy = true
is_healthy _ = false

unfoldable pub should_fallback_to_progressive :
    {F : Type 0} → Floats F → FallbackInputs F → Option FallbackReason
should_fallback_to_progressive fl inputs =
    if inputs.snapshot_is_stale
    then some FallbackReason.stale_state
    else if not (is_healthy inputs.provider_status)
    then some FallbackReason.provider_degraded
    else if fl.lt inputs.availability_drop_threshold inputs.availability_drop_ratio
    then some FallbackReason.availability_drop
    else if ltb inputs.ringing_ceiling inputs.ringing_calls
    then some FallbackReason.excessive_ringing
    else if fl.lt inputs.failure_rate_threshold inputs.call_failure_rate
    then some FallbackReason.high_failure_rate
    else none
