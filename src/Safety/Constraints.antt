-- ===== src/Safety/Constraints.antt =====
-- app/safety/models.py and the constraints of app/safety/safety_controller.py. A limit is never
-- negative: the source cuts each difference off at 0, as subtraction on ℕ does.
use smart_dialer.Base.{
  ℕ, zero, ◌-◌, min, Bool, false, Option, none, some, List, [], ◌∷◌, ◌==◌, not, ltb, leb, ◌&&◌,
  ◌||◌, if◌then◌else◌,
}
use smart_dialer.Model.Enums.{DialingMode, ProviderHealthStatus, SafetyVerdict}
use smart_dialer.Model.{Campaign}
use smart_dialer.World.{Env}
use smart_dialer.Safety.Fallback.{FallbackReason}

-- the explanation and its inputs are left out
pub record PacingRequest : Type 0 where
  pub requested : ℕ
  pub mode : DialingMode
  pub snapshot_captured_at : ℕ

-- the CONSTRAINT_ names, and "evaluation_error"
pub data ConstraintName : Type 0 where
  agent_capacity campaign_concurrency ringing_ceiling provider_health progressive_mode stale_state
        availability_drop failure_rate evaluation_error :
      ConstraintName

pub record SafetyConstraintResult (F : Type 0) : Type 0 where
  pub name : ConstraintName
  pub limit : ℕ
  pub value : Option F
  pub binding : Bool

pub record SafetyDecision (F : Type 0) : Type 0 where
  pub campaign_id : ℕ
  pub requested : ℕ
  pub approved : ℕ
  pub verdict : SafetyVerdict
  pub constraints : List (SafetyConstraintResult F)
  pub binding_constraint : Option ConstraintName
  pub snapshot_age_ms : ℕ
  pub created_at : ℕ
  pub fallback_reason : Option FallbackReason
  pub pacing_decision_id : Option ℕ

pub record CapacityReading (F : Type 0) : Type 0 where
  pub available_agents : ℕ
  pub reserved_agents : ℕ
  pub active_calls : ℕ
  pub ringing_calls : ℕ
  pub expired_leases : ℕ
  pub call_failure_rate : F
  pub provider_status : ProviderHealthStatus

-- the limit of the provider's health
unfoldable pub health_limit : ProviderHealthStatus → (uncapped progressive_equivalent : ℕ) → ℕ
health_limit ProviderHealthStatus.unhealthy uncapped progressive_equivalent = 0
health_limit ProviderHealthStatus.degraded uncapped progressive_equivalent = progressive_equivalent
health_limit ProviderHealthStatus.healthy uncapped progressive_equivalent = uncapped

abbrev pub mode_limit : DialingMode → (uncapped progressive_equivalent : ℕ) → ℕ
mode_limit DialingMode.progressive uncapped progressive_equivalent = progressive_equivalent
mode_limit DialingMode.predictive uncapped progressive_equivalent = uncapped

unfoldable pub verdict : (requested approved : ℕ) → Option FallbackReason → SafetyVerdict
verdict zero approved reason = SafetyVerdict.approved
verdict requested zero reason = SafetyVerdict.rejected
verdict requested approved (some reason) = SafetyVerdict.fallback_progressive
verdict requested approved none =
    if ltb approved requested then SafetyVerdict.reduced else SafetyVerdict.approved

module _ {F : Type 0} where
  abbrev constraint : ConstraintName → ℕ → Option F → SafetyConstraintResult F
  constraint name limit value = record {
    name = name;
    limit = limit;
    value = value;
    binding = false;
  }

  -- `min(request.requested, *(item.limit for item in constraints))`
  unfoldable pub smallest : ℕ → List (SafetyConstraintResult F) → ℕ
  smallest requested [] = requested
  smallest requested (c ∷ constraints) = min c.limit (smallest requested constraints)

  -- the loop of `_mark_binding`, which returns the list as it is if nothing was cut
  unfoldable pub mark_from :
      Bool → ℕ → List (SafetyConstraintResult F) → List (SafetyConstraintResult F)
  mark_from marked approved [] = []
  mark_from marked approved (c ∷ constraints) =
      let binding = not marked && (c.limit == approved) in
      record c { binding = binding } ∷ mark_from (marked || binding) approved constraints

  unfoldable pub mark_binding :
      List (SafetyConstraintResult F) → (approved requested : ℕ) → List (SafetyConstraintResult F)
  unfolding mark_from
  mark_binding constraints approved requested =
      let marked = mark_from false approved constraints in
      if leb requested approved then constraints else marked

  -- `next((item.name for item in constraints if item.binding), None)`
  unfoldable pub first_binding : List (SafetyConstraintResult F) → Option ConstraintName
  first_binding [] = none
  first_binding (c ∷ constraints) =
      let later = first_binding constraints in if c.binding then some c.name else later

module _ {F : Type 0} (e : Env F) where
  unfoldable pub build_constraints :
      Campaign
      → PacingRequest
      → CapacityReading F
      → (progressive_equivalent ceiling : ℕ) → (snapshot_is_stale : Bool)
      → (availability_drop_ratio : F) → List (SafetyConstraintResult F)
  unfolding health_limit
  build_constraints campaign request reading progressive_equivalent ceiling snapshot_is_stale
        availability_drop_ratio =
      let uncapped = request.requested in
      constraint ConstraintName.agent_capacity (reading.available_agents - reading.reserved_agents)
        (some (e.floats.of_ℕ reading.available_agents))
      ∷ constraint ConstraintName.campaign_concurrency
          (campaign.max_concurrent_calls - reading.active_calls)
          (some (e.floats.of_ℕ reading.active_calls))
      ∷ constraint ConstraintName.ringing_ceiling (ceiling - reading.ringing_calls)
          (some (e.floats.of_ℕ reading.ringing_calls))
      ∷ constraint ConstraintName.provider_health
          (health_limit reading.provider_status uncapped progressive_equivalent) none
      ∷ constraint ConstraintName.progressive_mode
          (mode_limit request.mode uncapped progressive_equivalent)
          (some (e.floats.of_ℕ progressive_equivalent))
      ∷ constraint ConstraintName.stale_state (if snapshot_is_stale then 0 else uncapped)
          (some (e.floats.of_ℕ reading.expired_leases))
      ∷ constraint ConstraintName.availability_drop
          (if e.floats.lt e.settings.availability_drop_threshold availability_drop_ratio
            then progressive_equivalent
            else uncapped)
          (some availability_drop_ratio)
      ∷ constraint ConstraintName.failure_rate
          (if e.floats.lt e.settings.high_failure_rate_threshold reading.call_failure_rate
            then progressive_equivalent
            else uncapped)
          (some reading.call_failure_rate)
      ∷ []
