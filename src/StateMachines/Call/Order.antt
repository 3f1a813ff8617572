-- ===== src/StateMachines/Call/Order.antt =====
-- What the table of the calls' transitions and the ranks say together.
use smart_dialer.Base.{◌≤◌, ◌<◌, ◌≡◌, true, false, arith}
use smart_dialer.Model.Enums.{CallState}
use smart_dialer.StateMachines.Call.{
  EventApplicability, can_transition, should_apply_event, rank, is_terminal,
}

-- Every transition of the table goes up in rank, and leaves a state that is not terminal.
pub can_transition-rank :
    (s t : CallState) → can_transition s t ≡ true → (rank s < rank t) × (is_terminal s ≡ false)
unfolding can_transition
can_transition-rank s t h = ground arith

-- From INITIATED on, the rank alone decides.
pub can_transition-initiated :
    (s t : CallState)
    → 2 ≤ rank s
    → is_terminal s ≡ false
    → rank s < rank t
    → can_transition s t ≡ true
unfolding can_transition
can_transition-initiated s t h n r = ground arith

-- An event that was to be applied to a state that was read is still legal when the call has moved
-- on meanwhile, as long as the write's own condition holds.
pub should_apply_event-race :
    (seen current target : CallState)
    → should_apply_event seen target ≡ EventApplicability.apply
    → rank seen ≤ rank current
    → is_terminal current ≡ false
    → rank current < rank target
    → can_transition current target ≡ true
unfolding should_apply_event
should_apply_event-race seen current target a le n lt = ground arith
