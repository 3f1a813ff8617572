-- ===== src/Contracts/Applied.antt =====
-- An event that brings a call to a final state, once the call is found: app/services/event_processor.py.
use smart_dialer.Lifecycle.Steps.{RetryPolicy}
use smart_dialer.Base.{ℕ, ◌≡◌, sym, ◌∙◌, ap, true, Option, none, some, arith, IsDistinct}
use mathlib.Core.Path.{subst}
use smart_dialer.Errors.{Outcome}
use smart_dialer.Model.{Call, AppliedTransition}
use smart_dialer.Model.Enums.{CallState, EventProcessingStatus}
use smart_dialer.StateMachines.Call.{EventApplicability, is_terminal, should_apply_event}
use smart_dialer.Repositories.Calls.{transition_call}
use smart_dialer.Repositories.Events.{ProviderEvent, mark_processed}
use smart_dialer.Services.EventProcessor.{
  EventProcessingResult, finish, failure_reason, after_transition, apply_by, apply_to_call,
}
use smart_dialer.World.{Database, World, Env, ◌>>=◌, pure}
use smart_dialer.World.Returns.{continue-Returned}
use smart_dialer.Lifecycle.Steps.{IsConsistent}
use smart_dialer.Lifecycle.Database.{Reach}
use smart_dialer.Lifecycle.History.Calls.{find_call, call_moves_forward, terminal_call_final}
use smart_dialer.Lifecycle.History.Ends.{IsOver, transition_call-IsOver}
use smart_dialer.Lifecycle.Calls.{Moves-transition_call}
use smart_dialer.Lifecycle.Moves.{IsEnv}
use smart_dialer.Handlers.Events.{Moves-after_transition}

abbrev pub status_or : EventProcessingStatus → Outcome EventProcessingResult → EventProcessingStatus
status_or status (Outcome.ok result) = result.status
status_or status (Outcome.raised x) = status

-- A call that is over stays over.
Reach-IsOver :
    {k : RetryPolicy} {s t : Database} (id : ℕ) (c : Call)
    → Reach k s t
    → find_call id s ≡ some c
    → IsConsistent c
    → IsOver id s.calls
    → IsOver id t.calls
Reach-IsOver id c r stored consistent (d, found, over) =
    let same : d ≡ c = cc (found, stored) in
    let later = terminal_call_final id r found (subst IsConsistent (sym same) consistent) over in
    (later.0, later.1, ap is_terminal later.2 ∙ over)

module _ {F : Type 0} (e : Env F) where
  pub finish_status :
      (event : ProviderEvent) (status : EventProcessingStatus) (applied : Option AppliedTransition)
      (w : World) (result : EventProcessingResult)
      → (finish e event status applied w).0 ≡ Outcome.ok result
      → result.status ≡ status
  unfolding finish ◌>>=◌ pure
  finish_status event status applied w result h =
      let marked = mark_processed e event.provider_name event.provider_event_id status applied w in
      let r =
        continue-Returned marked.0 marked.1
          (λ _. pure (record { status = status; applied_transition = applied })) result h in
      let same : Outcome.ok (record { status = status; applied_transition = applied })
          ≡ Outcome.ok result =
        sym (ap (λ x. x.0) r.rest) ∙ h in
      ap (λ (o : Outcome EventProcessingResult). status_or status o) (sym same)

module _ {F : Type 0} (e : Env F) (law : IsEnv e) (event : ProviderEvent) (call : Call)
    (target : CallState) (result : EventProcessingResult) where
  apply_by-IsOver :
      (a : EventApplicability) (w : World) (c : Call)
      → IsDistinct (λ (x : Call). x.id) w.db.calls
      → find_call call.id w.db ≡ some c
      → IsConsistent c
      → is_terminal target ≡ true
      → (apply_by e a event call target w).0 ≡ Outcome.ok result
      → result.status ≡ EventProcessingStatus.processed
      → IsOver call.id (apply_by e a event call target w).1.db.calls
  unfolding apply_by ◌>>=◌
  apply_by-IsOver EventApplicability.apply w c distinct stored consistent over returned processed =
      let moved = transition_call e call.id target (failure_reason event.reason target) w in
      let rest = after_transition e event call.state target in
      let r = continue-Returned moved.0 moved.1 rest result returned in
      let ended =
        transition_call-IsOver e law w call.id target (failure_reason event.reason target) c r.value
          distinct stored consistent over r.first in
      let reached =
        (Moves-transition_call e law call.id target (failure_reason event.reason target)).at w in
      let later = call_moves_forward call.id reached stored consistent in
      let after = (Moves-after_transition e law event call.state target r.value).at moved.1 in
      subst (λ out. IsOver call.id out.1.db.calls) (sym r.rest)
        (Reach-IsOver call.id later.0 after later.1 later.3 ended)
  apply_by-IsOver EventApplicability.ignore_terminal w c distinct stored consistent over h
        processed =
      let status = finish_status e event EventProcessingStatus.stale_ignored none w result h in
      ground (arith, status, processed)
  apply_by-IsOver EventApplicability.ignore_stale w c distinct stored consistent over h processed =
      let status = finish_status e event EventProcessingStatus.stale_ignored none w result h in
      ground (arith, status, processed)
  apply_by-IsOver EventApplicability.ignore_invalid w c distinct stored consistent over h
        processed =
      let status = finish_status e event EventProcessingStatus.invalid_ignored none w result h in
      ground (arith, status, processed)

  pub apply_to_call-IsOver :
      (w : World) (c : Call)
      → IsDistinct (λ (x : Call). x.id) w.db.calls
      → find_call call.id w.db ≡ some c
      → IsConsistent c
      → is_terminal target ≡ true
      → (apply_to_call e event (some target) (some call) w).0 ≡ Outcome.ok result
      → result.status ≡ EventProcessingStatus.processed
      → IsOver call.id (apply_to_call e event (some target) (some call) w).1.db.calls
  unfolding apply_to_call
  apply_to_call-IsOver = apply_by-IsOver (should_apply_event call.state target)
