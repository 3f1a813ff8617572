-- ===== src/Dialers/Modes.antt =====
-- app/dialers/progressive_dialer.py, predictive_dialer.py and mode_router.py: how the dialers set
-- the pacing engine, and which one dials for a campaign.
use smart_dialer.Base.{none, some}
use smart_dialer.Model.{Campaign}
use smart_dialer.Model.Enums.{DialingMode}
use smart_dialer.Pacing.Engine.{PacingEngineConfig}
use smart_dialer.World.{Env}

-- the two subclasses of `DialerBase`
pub data Dialer : Type 0 where
  progressive_dialer predictive_dialer : Dialer

abbrev pub dialer_for : DialingMode → Dialer
dialer_for DialingMode.progressive = progressive_dialer
dialer_for DialingMode.predictive = predictive_dialer

unfoldable pub select : Campaign → Dialer
select campaign = dialer_for campaign.dialing_mode

module _ {F : Type 0} (e : Env F) where
  abbrev pub base_config : PacingEngineConfig F
  base_config = record {
    soon_free_weight = e.settings.soon_free_weight;
    safety_margin = e.settings.safety_margin;
    min_answer_rate = e.settings.min_answer_rate;
    max_answer_rate = e.settings.max_answer_rate;
    volatility_threshold = e.settings.volatility_threshold;
    volatility_factor = e.settings.volatility_factor;
    max_request_per_tick = e.settings.max_request_per_tick;
    forced_answer_rate = none;
  }

  unfoldable pub engine_config : Dialer → PacingEngineConfig F
  engine_config predictive_dialer = base_config
  engine_config progressive_dialer = record base_config {
    forced_answer_rate = some (e.floats.of_ℕ 1);
    safety_margin = e.floats.of_ℕ 1;
    soon_free_weight = e.floats.of_ℕ 0;
  }
