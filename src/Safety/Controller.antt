-- ===== src/Safety/Controller.antt =====
-- app/safety/safety_controller.py
use smart_dialer.Base.{ℕ, zero, ◌-◌, ◌+◌, Bool, true, false, Option, none, some, [], ltb, ◌||◌}
use smart_dialer.Errors.{Error, Outcome}
use smart_dialer.Model.Enums.{AgentState, CallState, SafetyVerdict}
use smart_dialer.Repositories.Agents.{count_by_state as agents_by_state, count_expired_leases}
use smart_dialer.Repositories.Calls.Reports.{
  count_by_state as calls_by_state, outcome_counts_between,
}
use smart_dialer.Model.{Campaign}
use smart_dialer.Services.ProviderHealth.{get_health}
use smart_dialer.World.{Action, Env, ◌>>=◌, ◌>>◌, pure, raise, attempt, now, ask, answered}
use smart_dialer.Safety.Fallback.{FallbackReason, FallbackInputs, should_fallback_to_progressive}
use smart_dialer.Safety.Availability.{AvailabilityDrop, record_and_detect}
use smart_dialer.Safety.Constraints.{
  PacingRequest, ConstraintName, SafetyDecision, CapacityReading, verdict, smallest, mark_binding,
  first_binding, build_constraints,
}

module _ {F : Type 0} (e : Env F) where
  -- the ceiling of ringing calls: `int(MAX_RINGING_RATIO * available_agents)`
  abbrev pub ringing_ceiling_for : CapacityReading F → ℕ
  ringing_ceiling_for reading =
      e.floats.floor
        (e.floats.mul e.settings.max_ringing_ratio (e.floats.of_ℕ reading.available_agents))

  abbrev pub is_stale : CapacityReading F → ℕ → Bool
  is_stale reading snapshot_age_ms =
      ltb e.settings.max_snapshot_age_ms snapshot_age_ms || ltb 0 reading.expired_leases

  abbrev pub drop_ratio_of : Option (AvailabilityDrop F) → F
  drop_ratio_of none = e.floats.of_ℕ 0
  drop_ratio_of (some drop) = drop.drop_ratio

  -- the part of `_evaluate` that follows its reads
  unfoldable pub decide :
      Campaign
      → PacingRequest
      → Option ℕ
      → CapacityReading F
      → (snapshot_age_ms : ℕ) → Option (AvailabilityDrop F)
      → (created_at : ℕ) → SafetyDecision F
  unfolding should_fallback_to_progressive build_constraints smallest mark_binding first_binding
      verdict
  decide campaign request pacing_decision_id reading snapshot_age_ms drop created_at =
      let stale = is_stale reading snapshot_age_ms in
      let ratio = drop_ratio_of drop in
      let ceiling = ringing_ceiling_for reading in
      let inputs : FallbackInputs F = record {
        provider_status = reading.provider_status;
        availability_drop_ratio = ratio;
        availability_drop_threshold = e.settings.availability_drop_threshold;
        ringing_calls = reading.ringing_calls;
        ringing_ceiling = ceiling;
        call_failure_rate = reading.call_failure_rate;
        failure_rate_threshold = e.settings.high_failure_rate_threshold;
        snapshot_is_stale = stale;
      } in
      let reason = should_fallback_to_progressive e.floats inputs in
      let constraints =
        build_constraints e campaign request reading reading.available_agents ceiling stale ratio in
      let approved = smallest request.requested constraints in
      let marked = mark_binding constraints approved request.requested in
      record {
        campaign_id = campaign.id;
        requested = request.requested;
        approved = approved;
        verdict = verdict request.requested approved reason;
        constraints = marked;
        binding_constraint = first_binding marked;
        snapshot_age_ms = snapshot_age_ms;
        created_at = created_at;
        fallback_reason = reason;
        pacing_decision_id = pacing_decision_id;
      }

  -- `outcomes["system_failed"] / outcomes["total"]`, or 0.0
  abbrev failure_rate_in : ℕ → ℕ → F
  failure_rate_in zero system_failed = e.floats.of_ℕ 0
  failure_rate_in total system_failed =
      e.floats.div (e.floats.of_ℕ system_failed) (e.floats.of_ℕ total)

  unfoldable pub read_capacity : Campaign → Action (CapacityReading F)
  read_capacity campaign = do
    t ← now e
    agent_counts ← agents_by_state e campaign.id
    call_counts ← calls_by_state e campaign.id
    expired_leases ← count_expired_leases e t
    outcomes ← outcome_counts_between e campaign.id (t - e.settings.answer_rate_window_ms) t
    health ← get_health e campaign.provider_name
    pure (record {
      available_agents = agent_counts AgentState.available;
      reserved_agents = agent_counts AgentState.reserved;
      active_calls =
          call_counts CallState.reserved
          + call_counts CallState.initiated
          + call_counts CallState.ringing
          + call_counts CallState.answered
          + call_counts CallState.connected;
      ringing_calls = call_counts CallState.ringing;
      expired_leases = expired_leases;
      call_failure_rate = failure_rate_in outcomes.total outcomes.system_failed;
      provider_status = health.status;
    })

  -- `_evaluate`
  unfoldable pub evaluate_checked : Campaign → PacingRequest → Option ℕ → Action (SafetyDecision F)
  unfolding decide read_capacity
  evaluate_checked campaign request pacing_decision_id = do
    reading ← read_capacity campaign
    t ← now e
    drop ← record_and_detect e campaign.id reading.available_agents
    created_at ← now e
    pure (
        decide campaign request pacing_decision_id reading (t - request.snapshot_captured_at) drop
          created_at)

  -- `except Exception`, which asyncio's cancellation passes
  unfoldable pub persist_outcome : Outcome (Unit {0}) → Action (Unit {0})
  persist_outcome (Outcome.raised Error.cancelled) = raise Error.cancelled
  persist_outcome _ = pure tt

  unfoldable pub persist_decision : Bool → SafetyDecision F → Action (SafetyDecision F)
  unfolding persist_outcome
  persist_decision false decision = pure decision
  persist_decision true decision = do
    attempt (ask e (λ n. answered (e.decisions_db n))) persist_outcome
    pure decision

  -- the decision when the evaluation failed
  abbrev pub rejection : Campaign → PacingRequest → Option ℕ → ℕ → SafetyDecision F
  rejection campaign request pacing_decision_id created_at = record {
    campaign_id = campaign.id;
    requested = request.requested;
    approved = 0;
    verdict = SafetyVerdict.rejected;
    constraints = [];
    binding_constraint = some ConstraintName.evaluation_error;
    snapshot_age_ms = 0;
    created_at = created_at;
    fallback_reason = some FallbackReason.evaluation_error;
    pacing_decision_id = pacing_decision_id;
  }

  unfoldable pub evaluate_outcome :
      Campaign → PacingRequest → Option ℕ → Outcome (SafetyDecision F) → Action (SafetyDecision F)
  evaluate_outcome campaign request pacing_decision_id (Outcome.ok decision) = pure decision
  evaluate_outcome campaign request pacing_decision_id (Outcome.raised Error.cancelled) =
      raise Error.cancelled
  evaluate_outcome campaign request pacing_decision_id (Outcome.raised x) = do
    created_at ← now e
    pure (rejection campaign request pacing_decision_id created_at)

  unfoldable pub evaluate :
      Campaign → PacingRequest → Option ℕ → (persist : Bool) → Action (SafetyDecision F)
  unfolding evaluate_checked evaluate_outcome persist_decision
  evaluate campaign request pacing_decision_id persist = do
    decision ←
        attempt (evaluate_checked campaign request pacing_decision_id)
          (evaluate_outcome campaign request pacing_decision_id)
    persist_decision persist decision
