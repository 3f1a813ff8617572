-- ===== src/Safety/Availability.antt =====
-- app/services/agent_availability.py
use smart_dialer.Base.{ℕ, zero, suc, ◌-◌, Option, none, some, lookup, put, leb, not, if◌then◌else◌}
use smart_dialer.World.{Action, Env, ◌>>=◌, ◌>>◌, pure, gets, set_previous_available}

pub record AvailabilityDrop (F : Type 0) : Type 0 where
  pub campaign_id : ℕ
  pub previous_available : ℕ
  pub current_available : ℕ
  pub drop_ratio : F

module _ {F : Type 0} (e : Env F) where
  -- the tests of `record_and_detect`; a previous count of 0 is not a count
  unfoldable pub detect : ℕ → Option ℕ → ℕ → Option (AvailabilityDrop F)
  detect campaign_id none available_agents = none
  detect campaign_id (some zero) available_agents = none
  detect campaign_id (some (suc n)) available_agents =
      let drop_ratio =
        e.floats.div (e.floats.of_ℕ (suc n - available_agents)) (e.floats.of_ℕ (suc n)) in
      if leb (suc n) available_agents
      then none
      else if not (e.floats.lt e.settings.availability_drop_threshold drop_ratio)
      then none
      else some (record {
        campaign_id = campaign_id;
        previous_available = suc n;
        current_available = available_agents;
        drop_ratio = drop_ratio;
      })

  unfoldable pub record_and_detect : ℕ → ℕ → Action (Option (AvailabilityDrop F))
  unfolding detect
  record_and_detect campaign_id available_agents = do
    counts ← gets (λ w. w.previous_available)
    set_previous_available (put campaign_id available_agents counts)
    pure (detect campaign_id (lookup campaign_id counts) available_agents)
