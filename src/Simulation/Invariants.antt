-- ===== src/Simulation/Invariants.antt =====
-- app/simulation/invariants.py
use smart_dialer.Base.{
  ℕ, zero, suc, ◌+◌, ◌-◌, Bool, true, false, List, [], ◌∷◌, ◌++◌, Option, none, some, lookup, put,
  length, leb, ◌==◌, map, if◌then◌else◌,
}
use smart_dialer.Model.{Call}
use smart_dialer.Model.Enums.{AgentState}
use smart_dialer.Repositories.Agents.{count_by_state}
use smart_dialer.Repositories.Calls.{find_active, find_stale_calls}
use smart_dialer.Settings.{seconds}
use smart_dialer.World.{Action, Env, ◌>>=◌, pure, now}

-- the INVARIANT_ names
pub data InvariantName : Type 0 where
  agent_double_booked borrower_double_booked calls_exceed_agents stale_call stuck_reservation :
      InvariantName

-- An entry of `offending_ids` names a call, or who is in two calls, and these.
pub data Offender : Type 0 where
  double_booked : (identifier first second : ℕ) → Offender
  offending_call : (id : ℕ) → Offender

pub record InvariantViolation : Type 0 where
  pub name : InvariantName
  pub offending_ids : List Offender

-- `if identifier in seen: offenders.append(...)`
abbrev pub with_offender : (identifier id : ℕ) → Option ℕ → List Offender → List Offender
with_offender identifier id none rest = rest
with_offender identifier id (some first) rest = double_booked identifier first id ∷ rest

-- The loop of `_check_duplicate_bindings`, with the dictionary `seen`.
unfoldable pub offenders : (key : Call → ℕ) → (seen : List (ℕ × ℕ)) → List Call → List Offender
offenders key seen [] = []
offenders key seen (call ∷ calls) =
    let rest = offenders key (put (key call) call.id seen) calls in
    with_offender (key call) call.id (lookup (key call) seen) rest

-- `if offenders: violations.append(...)`
abbrev pub violation_if : InvariantName → List Offender → List InvariantViolation
violation_if name [] = []
violation_if name (o ∷ offending) = record { name = name; offending_ids = o ∷ offending } ∷ []

unfoldable pub check_duplicate_bindings : List Call → List InvariantViolation
unfolding offenders
check_duplicate_bindings active_calls =
    violation_if agent_double_booked (offenders (λ (c : Call). c.agent_id) [] active_calls)
    ++ violation_if borrower_double_booked (offenders (λ (c : Call). c.borrower_id) [] active_calls)

abbrev pub usable_agents : (AgentState → ℕ) → ℕ
usable_agents agent_counts =
    agent_counts AgentState.available
    + agent_counts AgentState.reserved
    + agent_counts AgentState.dialing
    + agent_counts AgentState.connected
    + agent_counts AgentState.wrap_up

abbrev offending_calls : List Call → List Offender
offending_calls calls = map (λ (c : Call). offending_call c.id) calls

unfoldable pub check_capacity : List Call → (AgentState → ℕ) → List InvariantViolation
check_capacity active_calls agent_counts =
    if leb (length active_calls) (usable_agents agent_counts)
    then []
    else record { name = calls_exceed_agents; offending_ids = offending_calls active_calls } ∷ []

-- `[call for call in stale if call.campaign_id == campaign_id]`
abbrev of_campaign : ℕ → List Call → List Call
of_campaign campaign_id [] = []
of_campaign campaign_id (call ∷ calls) =
    let rest = of_campaign campaign_id calls in
    if call.campaign_id == campaign_id then call ∷ rest else rest

abbrev stuck_reservation_if : ℕ → List InvariantViolation
stuck_reservation_if zero = []
stuck_reservation_if (suc n) = record { name = stuck_reservation; offending_ids = [] } ∷ []

-- the default of `find_active`
abbrev pub active_limit : ℕ
active_limit = 5000

module _ {F : Type 0} (e : Env F) where
  unfoldable pub check_final_state :
      (campaign_id : ℕ) → (AgentState → ℕ) → Action (List InvariantViolation)
  check_final_state campaign_id agent_counts = do
    t ← now e
    stale ← find_stale_calls e (t - seconds e.settings.call_stale_timeout_seconds) 50
    pure (
        violation_if stale_call (offending_calls (of_campaign campaign_id stale))
        ++ stuck_reservation_if (agent_counts AgentState.reserved))

  unfoldable pub check_if_final :
      (campaign_id : ℕ) → (final : Bool) → (AgentState → ℕ) → Action (List InvariantViolation)
  unfolding check_final_state
  check_if_final campaign_id false agent_counts = pure []
  check_if_final campaign_id true agent_counts = check_final_state campaign_id agent_counts

  unfoldable pub check : (campaign_id : ℕ) → (final : Bool) → Action (List InvariantViolation)
  unfolding check_duplicate_bindings check_capacity check_if_final
  check campaign_id final = do
    active_calls ← find_active e campaign_id active_limit
    agent_counts ← count_by_state e campaign_id
    final_violations ← check_if_final campaign_id final agent_counts
    pure (
        check_duplicate_bindings active_calls
        ++ check_capacity active_calls agent_counts
        ++ final_violations)
