-- ===== src/Contracts/Tick.antt =====
-- A tick of the dialer keeps to what was requested and approved.
use smart_dialer.Base.{ℕ, ◌≤◌, not, ◌==◌, ◌≡◌, Option}
use smart_dialer.Errors.{Outcome}
use smart_dialer.Model.{Campaign}
use smart_dialer.Safety.Constraints.{PacingRequest, SafetyDecision}
use smart_dialer.Safety.Controller.{evaluate, evaluate_checked}
use smart_dialer.Safety.Evaluation.{IsSafe, IsClosed}
use smart_dialer.Services.CallAllocator.{AllocationResult, allocate}
use smart_dialer.Contracts.Rounds.{Counted, no_counts}
use smart_dialer.Pacing.Engine.{compute_request}
use smart_dialer.Pacing.Snapshot.{PacingSnapshot, build_snapshot}
use smart_dialer.Dialers.Modes.{Dialer, engine_config}
use smart_dialer.Dialers.{TickResult}
use smart_dialer.World.{World, Action, Env, ◌>>=◌, pure}

module _ {F : Type 0} (e : Env F) (campaign : Campaign) (worker_id : ℕ) where
  -- The result of a tick for a request, in the world that it leaves: the decision is safe, and is
  -- what the calculation of limits gave, or a rejection if that raised; and the allocation is
  -- counted over rounds, as many as were approved at most.
  pub record IsHandled (request : PacingRequest) (r : TickResult F) (u : World) : Type 0 where
    pub requested : r.requested ≡ request.requested
    pub decision : IsSafe request r.decision
    pub decision_id : Option ℕ
    pub evaluated_in : World
    pub closed :
        IsClosed (evaluate_checked e campaign request decision_id evaluated_in).0 r.decision
    pub allocated_in : World
    pub counted :
        Counted e campaign worker_id r.decision.approved 0 no_counts allocated_in r.allocation u

  -- what `tick` does, from its end to its beginning
  abbrev result : PacingRequest → SafetyDecision F → AllocationResult → TickResult F
  result request d a = record { requested = request.requested; decision = d; allocation = a }

  abbrev allocating : PacingRequest → SafetyDecision F → Action (TickResult F)
  allocating request d = allocate e campaign d.approved worker_id >>= λ a. pure (result request d a)

  abbrev evaluating : PacingRequest → Option ℕ → Action (TickResult F)
  evaluating request id =
      evaluate e campaign request id (not (request.requested == 0)) >>= allocating request

  -- The result of a tick, with the snapshot that it was computed from.
  pub record IsKept (dialer : Dialer) (w : World) (r : TickResult F) (u : World) : Type 0 where
    pub snapshot : PacingSnapshot F
    pub taken : (build_snapshot e campaign w).0 ≡ Outcome.ok snapshot
    pub handled : IsHandled (compute_request e.floats snapshot (engine_config e dialer)) r u
    pub attempted : r.allocation.attempted ≤ r.decision.approved
    pub approved : r.decision.approved ≤ r.requested
    pub capped : r.requested ≤ e.settings.max_request_per_tick

  -- If something is raised, nothing is promised.
  abbrev pub IsKeptOutcome : Dialer → World → Outcome (TickResult F) → World → Type 0
  IsKeptOutcome dialer w (Outcome.ok r) u = IsKept dialer w r u
  IsKeptOutcome dialer w (Outcome.raised x) u = Unit
