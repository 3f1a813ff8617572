-- ===== src/Safety/Caps.antt =====
-- The caps that make a tick progressive, next to the capacity of the agents.
use smart_dialer.Base.{ℕ, ◌<◌, ◌≡◌, Bool, true, false, Option, List}
use smart_dialer.Model.{Campaign}
use smart_dialer.World.{Env}
use smart_dialer.Safety.Availability.{AvailabilityDrop}
use smart_dialer.Safety.Constraints.{
  PacingRequest, SafetyConstraintResult, CapacityReading, ConstraintName, build_constraints,
}
use smart_dialer.Safety.Controller.{ringing_ceiling_for, is_stale, drop_ratio_of}
use smart_dialer.Safety.Limits.{decision}

-- the constraints that only cap a tick at the available agents
abbrev pub is_progressive_cap : ConstraintName → Bool
is_progressive_cap ConstraintName.progressive_mode = true
is_progressive_cap ConstraintName.availability_drop = true
is_progressive_cap ConstraintName.failure_rate = true
is_progressive_cap _ = false

module _ {F : Type 0} where
  -- no cap of the list has exactly this limit
  abbrev IsAbove : ℕ → SafetyConstraintResult F → Type 0
  IsAbove m c = is_progressive_cap c.name ≡ true → m < c.limit

module _ {F : Type 0} (e : Env F) (campaign : Campaign) (request : PacingRequest) (id : Option ℕ)
    (reading : CapacityReading F) (age : ℕ) (drop : Option (AvailabilityDrop F)) (t : ℕ) where
  abbrev m : ℕ
  m = (decision e campaign request id reading age drop t).approved

  abbrev constraints : List (SafetyConstraintResult F)
  unfolding build_constraints
  constraints =
      build_constraints e campaign request reading reading.available_agents
        (ringing_ceiling_for e reading) (is_stale e reading age) (drop_ratio_of e drop)
