-- ===== src/Dialers.antt =====
-- app/dialers/base.py: a tick takes a snapshot, computes a request, has it evaluated, and allocates
-- the calls that are approved.
pub mod Modes
use smart_dialer.Base.{ℕ, Bool, true, false, Option, none, some, ◌==◌, not}
use smart_dialer.Safety.Constraints.{PacingRequest, SafetyDecision}
use smart_dialer.Safety.Controller.{evaluate}
use smart_dialer.Dialers.Modes.{Dialer, engine_config}
use smart_dialer.Pacing.Snapshot.{build_snapshot}
use smart_dialer.Pacing.Engine.{compute_request}
use smart_dialer.Model.{Campaign}
use smart_dialer.Services.CallAllocator.{AllocationResult, allocate}
use smart_dialer.World.{Action, Env, ◌>>=◌, ◌>>◌, pure, fresh_id, ask, answered}

pub record TickResult (F : Type 0) : Type 0 where
  pub requested : ℕ
  pub decision : SafetyDecision F
  pub allocation : AllocationResult

module _ {F : Type 0} (e : Env F) where
  -- the id of the decision that `record_pacing_request` stores, unless the tick is idle
  unfoldable pub record_pacing : Bool → Action (Option ℕ)
  record_pacing true = pure none
  record_pacing false = do id ← fresh_id e; ask e (λ n. answered (e.decisions_db n)); pure (some id)

  -- what `tick` does with the request
  unfoldable pub tick_request : Campaign → PacingRequest → (worker_id : ℕ) → Action (TickResult F)
  unfolding record_pacing
  tick_request campaign request worker_id = do
    let idle = request.requested == 0
    pacing_decision_id ← record_pacing idle
    decision ← evaluate e campaign request pacing_decision_id (not idle)
    allocation ← allocate e campaign decision.approved worker_id
    pure (record { requested = request.requested; decision = decision; allocation = allocation })

  unfoldable pub tick : Dialer → Campaign → (worker_id : ℕ) → Action (TickResult F)
  unfolding tick_request engine_config
  tick dialer campaign worker_id = do
    snapshot ← build_snapshot e campaign
    tick_request campaign (compute_request e.floats snapshot (engine_config e dialer)) worker_id
