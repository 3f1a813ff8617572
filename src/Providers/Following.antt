-- ===== src/Providers/Following.antt =====
-- What the events of a script do to the document of their call, by the tests of the event processor
-- and the update of the repository, when nothing else changes it.
use smart_dialer.Base.{ℕ, suc, String, Option, none, some, List, [], ◌∷◌}
use smart_dialer.Model.{Call}
use smart_dialer.Model.Enums.{CallState}
use smart_dialer.Repositories.Calls.{transitioned_call}
use smart_dialer.Repositories.Events.{ProviderEvent}
use smart_dialer.Services.EventProcessor.{event_type_to_call_state, failure_reason}
use smart_dialer.StateMachines.Call.{EventApplicability, should_apply_event}

unfoldable pub applied_by : EventApplicability → CallState → Option String → ℕ → Call → Call
applied_by EventApplicability.apply target reason t c = transitioned_call target reason t c
applied_by _ target reason t c = c

unfoldable pub apply_to_document : Option CallState → ProviderEvent → ℕ → Call → Call
unfolding applied_by
apply_to_document none event t c = c
apply_to_document (some target) event t c =
    applied_by (should_apply_event c.state target) target (failure_reason event.reason target) t c

-- the events of a script one after the other; the clock tells when each is handled
module _ {F : Type 0} where
  unfoldable pub follow : (clock : ℕ → ℕ) → ℕ → List (F × ProviderEvent) → Call → Call
  unfolding apply_to_document
  follow clock n [] c = c
  follow clock n ((delay, event) ∷ events) c =
      follow clock (suc n) events
        (apply_to_document (event_type_to_call_state event.event_type) event (clock n) c)
