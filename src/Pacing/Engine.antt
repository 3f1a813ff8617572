-- ===== src/Pacing/Engine.antt =====
-- app/pacing/pacing_engine.py. The explanation and its inputs are left out.
use smart_dialer.Base.{ℕ, ◌+◌, min, Option, none, some, if◌then◌else◌}
use smart_dialer.Pacing.AnswerRate.{max_float, blended_answer_rate, is_volatile}
use smart_dialer.Pacing.Snapshot.{PacingSnapshot}
use smart_dialer.Safety.Constraints.{PacingRequest}
use smart_dialer.Settings.{Floats}

pub record PacingEngineConfig (F : Type 0) : Type 0 where
  pub soon_free_weight : F
  pub safety_margin : F
  pub min_answer_rate : F
  pub max_answer_rate : F
  pub volatility_threshold : F
  pub volatility_factor : F
  pub max_request_per_tick : ℕ
  pub forced_answer_rate : Option F

-- an expression that raises if the first part does
infixl 5 ◌>>=◌
abbrev pub ◌>>=◌ {ℓ κ} : {A : Type ℓ} {B : Type κ} → Option A → (A → Option B) → Option B
none >>= f = none
some a >>= f = f a

-- the handler of `compute_request`: no calls are requested
abbrev pub requested_or_zero : Option ℕ → ℕ
requested_or_zero none = 0
requested_or_zero (some n) = n

module _ {F : Type 0} (floats : Floats F) where
  -- `x / y`, which raises ZeroDivisionError
  unfoldable pub divide : F → F → Option F
  divide x y = if floats.eq y (floats.of_ℕ 0) then none else some (floats.div x y)

  -- `math.floor(x)`, which raises ValueError and OverflowError
  unfoldable pub floor_of : F → Option ℕ
  floor_of x = if floats.is_finite x then some (floats.floor x) else none

  abbrev pub effective_answer_rate : PacingSnapshot F → PacingEngineConfig F → Option F → F
  effective_answer_rate snapshot config (some forced) = forced
  effective_answer_rate snapshot config none =
      blended_answer_rate floats snapshot.recent_answer_rate snapshot.baseline_answer_rate
        config.min_answer_rate config.max_answer_rate

  abbrev pub volatility_factor : PacingSnapshot F → PacingEngineConfig F → F
  volatility_factor snapshot config =
      if is_volatile floats snapshot.recent_answer_rate snapshot.previous_answer_rate
        config.volatility_threshold
      then config.volatility_factor
      else floats.of_ℕ 1

  abbrev pub in_flight : PacingSnapshot F → ℕ
  in_flight snapshot = snapshot.ringing_calls + snapshot.initiated_calls + snapshot.reserved_agents

  abbrev pub free_capacity : PacingSnapshot F → PacingEngineConfig F → F
  free_capacity snapshot config = floats.add (floats.of_ℕ snapshot.available_agents) (
      floats.mul (floats.of_ℕ (snapshot.wrap_up_agents + snapshot.long_connected_agents))
        config.soon_free_weight)

  -- the calls that are needed beyond those in flight, before anything scales them down
  unfoldable pub raw_request : PacingSnapshot F → PacingEngineConfig F → Option ℕ
  unfolding divide floor_of
  raw_request snapshot config = do
    calls_needed ←
        divide (free_capacity snapshot config)
          (effective_answer_rate snapshot config config.forced_answer_rate)
    floor_of (
        max_float floats (floats.of_ℕ 0)
          (floats.sub calls_needed (floats.of_ℕ (in_flight snapshot))))

  abbrev pub scaled : PacingSnapshot F → PacingEngineConfig F → ℕ → F
  scaled snapshot config raw =
      floats.mul
        (floats.mul (floats.mul (floats.of_ℕ raw) config.safety_margin) snapshot.health_factor)
        (volatility_factor snapshot config)

  -- the number that `_compute` requests; none if it raises
  unfoldable pub compute : PacingSnapshot F → PacingEngineConfig F → Option ℕ
  unfolding raw_request floor_of
  compute snapshot config = do
    raw ← raw_request snapshot config
    floored ← floor_of (scaled snapshot config raw)
    some (min floored config.max_request_per_tick)

  unfoldable pub compute_request : PacingSnapshot F → PacingEngineConfig F → PacingRequest
  unfolding compute
  compute_request snapshot config = record {
    requested = requested_or_zero (compute snapshot config);
    mode = snapshot.mode;
    snapshot_captured_at = snapshot.captured_at;
  }
