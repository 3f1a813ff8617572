-- ===== src/Pacing/Bounds.antt =====
-- What the request of a tick is bounded by.
use smart_dialer.Base.{ℕ, ◌≤◌, ◌≡◌, refl, min, Option, none, some, arith}
use smart_dialer.Dialers.Modes.{Dialer, progressive_dialer, predictive_dialer, engine_config}
use smart_dialer.Pacing.Engine.{
  PacingEngineConfig, ◌>>=◌, floor_of, raw_request, scaled, compute, requested_or_zero,
  compute_request,
}
use smart_dialer.Pacing.Snapshot.{PacingSnapshot}
use smart_dialer.Settings.{Floats}
use smart_dialer.World.{Env}

abbrev capped : ℕ → Option ℕ → Option ℕ
capped cap o = o >>= λ n. some (min n cap)

capped_le : (o : Option ℕ) (cap : ℕ) → requested_or_zero (capped cap o) ≤ cap
capped_le none cap = omega arith
capped_le (some n) cap = omega arith

module _ {F : Type 0} (floats : Floats F) (snapshot : PacingSnapshot F)
    (config : PacingEngineConfig F) where
  abbrev scaled_request : Option ℕ → Option ℕ
  scaled_request raw = raw >>= λ n.
      capped config.max_request_per_tick (floor_of floats (scaled floats snapshot config n))

  scaled_request_le :
      (raw : Option ℕ) → requested_or_zero (scaled_request raw) ≤ config.max_request_per_tick
  scaled_request_le none = omega arith
  scaled_request_le (some n) = capped_le (floor_of floats (scaled floats snapshot config n)) _

  -- A tick never requests more calls than its configuration allows, whatever the snapshot holds
  -- and whether or not the calculation fails.
  pub compute_request-cap :
      (compute_request floats snapshot config).requested ≤ config.max_request_per_tick
  unfolding compute_request compute
  compute_request-cap = scaled_request_le (raw_request floats snapshot config)

-- Every dialer has the cap of the settings.
pub engine_config-cap :
    {F : Type 0} (e : Env F) (dialer : Dialer)
    → (engine_config e dialer).max_request_per_tick ≡ e.settings.max_request_per_tick
unfolding engine_config
engine_config-cap e progressive_dialer = refl
engine_config-cap e predictive_dialer = refl
