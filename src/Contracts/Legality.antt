-- ===== src/Contracts/Legality.antt =====
-- An event moves a call only along the table of transitions: app/services/event_processor.py.
use smart_dialer.Base.{◌≡◌, Bool, true, false, some}
use smart_dialer.Errors.{Outcome}
use smart_dialer.Model.{Call, AppliedTransition}
use smart_dialer.Model.Enums.{CallState, EventProcessingStatus}
use smart_dialer.StateMachines.Call.{can_transition}
use smart_dialer.Repositories.Events.{ProviderEvent}
use smart_dialer.Services.EventProcessor.{EventProcessingResult, event_type_to_call_state}
use smart_dialer.World.{World}
use smart_dialer.World.Yields.{Yields}

abbrev is_processed : EventProcessingStatus → Bool
is_processed EventProcessingStatus.processed = true
is_processed _ = false

-- What a result says of the event: it was not applied; or it was, from the state that was read to
-- the state that its type stands for, which is a transition of the table.
pub data Judged (event : ProviderEvent) (r : EventProcessingResult) : Type 0 where
  ignored : is_processed r.status ≡ false → Judged event r
  applied :
      (old target : CallState)
      → r.applied_transition ≡ some (AppliedTransition.moved old target)
      → event_type_to_call_state event.event_type ≡ some target
      → can_transition old target ≡ true
      → Judged event r

-- If something is raised, nothing is promised.
abbrev pub IsJudged : ProviderEvent → Outcome EventProcessingResult → Type 0
IsJudged event (Outcome.ok r) = Judged event r
IsJudged event (Outcome.raised x) = Unit
