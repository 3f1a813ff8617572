-- ===== src/Contracts/Endings.antt =====
-- An event that ends a call: app/services/event_processor.py.
use smart_dialer.Base.{
  ℕ, ◌≡◌, refl, sym, ◌∙◌, ap, true, Option, none, some, List, arith, IsDistinct, get, get-replaced,
  All, get-All, suc, ◌==◌, ◌&&◌, &&_left, &&_right, ==→≡, holds_value,
}
use smart_dialer.Store.{Stored, Reply}
use mathlib.Core.Path.{subst}
use smart_dialer.Errors.{Error, Outcome}
use smart_dialer.Model.{Call, AppliedTransition, derive_state_rank_and_terminal}
use smart_dialer.Model.Enums.{CallState, EventProcessingStatus}
use smart_dialer.StateMachines.Call.{is_terminal}
use smart_dialer.Repositories.Calls.{find_by_provider_call_id, from_mongo}
use smart_dialer.Repositories.Events.{ProviderEvent, EventRecordResult, record_event}
use smart_dialer.Services.EventProcessor.{
  EventProcessingResult, apply_to_call, apply_event, apply_outcome, process_recorded, process_event,
  event_type_to_call_state,
}
use smart_dialer.World.{
  Action, Database, World, Env, arrive, query, answered, continue_with, ◌>>=◌, pure, raise, attempt,
}
use smart_dialer.Lifecycle.Steps.{IsConsistent}
use smart_dialer.Lifecycle.History.Calls.{find_call, calls-IsConsistent, call_moves_forward}
use smart_dialer.Lifecycle.History.Ends.{calls-IsDistinct}
use smart_dialer.Lifecycle.Calls.{Moves-find_by_provider_call_id, Moves-record_event}
use smart_dialer.Lifecycle.Moves.{IsEnv}
use smart_dialer.Contracts.Applied.{status_or, finish_status, apply_to_call-IsOver}
use smart_dialer.World.Returns.{continue-Returned}
use smart_dialer.Handlers.Events.{Moves-apply_to_call}

-- What a request for one call returned is what is stored, with its derived fields.
record IsRead (r : Reply (Option Call)) (w : World) (out : Outcome (Option Call) × World)
    (call : Call) : Type 0 where
  document : Call
  reply : r ≡ Reply.reply (some document)
  derived : call ≡ derive_state_rank_and_terminal document
  rest : out.1 ≡ w

abbrev from_document : Option Call → Action (Option Call)
from_document document =
    pure (elim document [ none ↦ none | some d ↦ some (derive_state_rank_and_terminal d) ])

answer-IsRead :
    (r : Reply (Option Call)) (w : World) (call : Call)
    → (continue_with (answered r) from_document w).0 ≡ Outcome.ok (some call)
    → IsRead r w (continue_with (answered r) from_document w) call
unfolding pure
answer-IsRead (Reply.reply none) w call h = ground (arith, h)
answer-IsRead (Reply.reply (some d)) w call h = record {
  document = d;
  reply = refl;
  derived = cc h;
  rest = refl;
}
answer-IsRead Reply.duplicate_key w call h = ground (arith, h)
answer-IsRead Reply.unavailable w call h = ground (arith, h)

found_again :
    (docs : List Call) (d : Call)
    → IsDistinct (λ (x : Call). x.id) docs
    → Stored docs d
    → get (λ (x : Call). x.id) d.id docs ≡ some d
found_again docs d distinct at = rw at.split (
    get-replaced (λ (x : Call). x.id) d.id at.left d d at.right refl refl
      (rw (← at.split) distinct))

same_state : {kind : Option CallState} {s t : CallState} → kind ≡ some s → kind ≡ some t → s ≡ t
same_state h k = cc (h, k)

held_value : (o : Option ℕ) (p : ℕ) → holds_value o p ≡ true → o ≡ some p
held_value none p h = ground (arith, h)
held_value (some q) p h = ap some (==→≡ q p h)

-- The event's call is stored with its provider and the provider's id for it, and it is over.
abbrev pub HasEnded : ProviderEvent → List Call → Type 0
HasEnded event calls =
    (id : ℕ) × (c : Call) × (get (λ (x : Call). x.id) id calls ≡ some c)
    × (c.provider_name ≡ event.provider_name)
    × (c.provider_call_id ≡ some event.provider_call_id)
    × (is_terminal c.state ≡ true)

-- What a database holds of a call that was read.
record IsHeld (provider_name provider_call_id : ℕ) (s : Database) (call : Call) : Type 0 where
  document : Call
  found : find_call call.id s ≡ some document
  consistent : IsConsistent document
  from_provider : document.provider_name ≡ provider_name
  attached : document.provider_call_id ≡ some provider_call_id

module _ {F : Type 0} (e : Env F) (law : IsEnv e) where
  read-IsHeld :
      (provider_name p : ℕ) (w : World) (call : Call)
      → IsDistinct (λ (x : Call). x.id) w.db.calls
      → All IsConsistent w.db.calls
      → (find_by_provider_call_id e provider_name p w).0 ≡ Outcome.ok (some call)
      → IsHeld provider_name p (find_by_provider_call_id e provider_name p w).1.db call
  unfolding find_by_provider_call_id from_mongo query ◌>>=◌
  read-IsHeld provider_name p w call distinct consistent returned =
      let s = arrive e w in
      let reached = law.others_law w.moment w.db in
      let found =
        e.calls_db.find_one w.moment
          (λ d. d.provider_name == provider_name && holds_value d.provider_call_id p) s.calls in
      let r = answer-IsRead found (record w { db = s; moment = suc w.moment }) call returned in
      let d = r.document in
      let (at, fits) = law.calls_law.find_one_some w.moment _ s.calls d r.reply in
      let stored = found_again s.calls d (calls-IsDistinct reached distinct) at in
      subst (λ (x : World). IsHeld provider_name p x.db call) (sym r.rest)
        (record {
          document = d;
          found = subst (λ (x : Call). find_call x.id s ≡ some d) (sym r.derived) stored;
          consistent =
              get-All (λ (x : Call). x.id) IsConsistent d.id d s.calls
                (calls-IsConsistent reached consistent) stored;
          from_provider = ==→≡ d.provider_name provider_name (&&_left _ _ fits);
          attached = held_value d.provider_call_id p (&&_right _ _ fits);
        })

  module _ (event : ProviderEvent) (result : EventProcessingResult) where
    apply_to_call-HasEnded :
        (w : World) (kind : Option CallState) (call : Option Call)
        → ((x : Call) → call ≡ some x → IsHeld event.provider_name event.provider_call_id w.db x)
        → ((target : CallState) → kind ≡ some target → is_terminal target ≡ true)
        → IsDistinct (λ (x : Call). x.id) w.db.calls
        → (apply_to_call e event kind call w).0 ≡ Outcome.ok result
        → result.status ≡ EventProcessingStatus.processed
        → HasEnded event (apply_to_call e event kind call w).1.db.calls
    unfolding apply_to_call
    apply_to_call-HasEnded w kind none held over distinct returned processed =
        let status =
          finish_status e event EventProcessingStatus.invalid_ignored none w result returned in
        ground (arith, status, processed)
    apply_to_call-HasEnded w none (some call) held over distinct returned processed =
        let status =
          finish_status e event EventProcessingStatus.invalid_ignored none w result returned in
        ground (arith, status, processed)
    apply_to_call-HasEnded w (some target) (some call) held over distinct returned processed =
        let h = held call refl in
        let (c, found, ended) =
          apply_to_call-IsOver e law event call target result w h.document distinct h.found
            h.consistent (over target refl) returned processed in
        let reached = (Moves-apply_to_call e law event (some target) (some call)).at w in
        let later = call_moves_forward call.id reached h.found h.consistent in
        let same : later.0 ≡ c = cc (later.1, found) in
        (
          call.id,
          c,
          found,
          subst (λ (x : Call). x.provider_name ≡ event.provider_name) same
              (later.7 ∙ h.from_provider),
          subst (λ (x : Call). x.provider_call_id ≡ some event.provider_call_id) same
              (later.8 event.provider_call_id h.attached),
          ended,
        )

    apply_event-HasEnded :
        (w : World)
        → IsDistinct (λ (x : Call). x.id) w.db.calls
        → All IsConsistent w.db.calls
        → ((target : CallState)
            → event_type_to_call_state event.event_type ≡ some target
            → is_terminal target ≡ true)
        → (apply_event e event w).0 ≡ Outcome.ok result
        → result.status ≡ EventProcessingStatus.processed
        → HasEnded event (apply_event e event w).1.db.calls
    unfolding apply_event ◌>>=◌
    apply_event-HasEnded w distinct consistent over returned processed =
        let read = find_by_provider_call_id e event.provider_name event.provider_call_id w in
        let kind = event_type_to_call_state event.event_type in
        let r = continue-Returned read.0 read.1 (apply_to_call e event kind) result returned in
        let reached =
          (Moves-find_by_provider_call_id e law event.provider_name event.provider_call_id).at w in
        subst (λ out. HasEnded event out.1.db.calls) (sym r.rest)
          (apply_to_call-HasEnded read.1 kind r.value
            (λ x found.
              read-IsHeld event.provider_name event.provider_call_id w x distinct consistent
                (r.first ∙ ap Outcome.ok found))
            over (calls-IsDistinct reached distinct) (ap (λ out. out.0) (sym r.rest) ∙ returned)
            processed)

    apply_outcome-HasEnded :
        (o : Outcome EventProcessingResult) (w : World)
        → (o ≡ Outcome.ok result → HasEnded event w.db.calls)
        → (apply_outcome e event o w).0 ≡ Outcome.ok result
        → result.status ≡ EventProcessingStatus.processed
        → HasEnded event (apply_outcome e event o w).1.db.calls
    unfolding apply_outcome pure raise
    apply_outcome-HasEnded (Outcome.ok found) w ended returned processed = ended returned
    apply_outcome-HasEnded (Outcome.raised Error.cancelled) w ended returned processed =
        ground (arith, returned)
    apply_outcome-HasEnded (Outcome.raised x) w ended returned processed =
        let status =
          finish_status e event EventProcessingStatus.invalid_ignored
            (some (AppliedTransition.error_kind x)) w result returned in
        ground (arith, status, processed)

    process_recorded-HasEnded :
        (r : EventRecordResult) (w : World)
        → IsDistinct (λ (x : Call). x.id) w.db.calls
        → All IsConsistent w.db.calls
        → ((target : CallState)
            → event_type_to_call_state event.event_type ≡ some target
            → is_terminal target ≡ true)
        → (process_recorded e event r w).0 ≡ Outcome.ok result
        → result.status ≡ EventProcessingStatus.processed
        → HasEnded event (process_recorded e event r w).1.db.calls
    unfolding process_recorded attempt pure
    process_recorded-HasEnded EventRecordResult.duplicate w distinct consistent over h processed =
        let status : EventProcessingStatus.duplicate_ignored ≡ result.status =
          ap (status_or EventProcessingStatus.duplicate_ignored) h in
        ground (arith, status, processed)
    process_recorded-HasEnded EventRecordResult.recorded w distinct consistent over h processed =
        apply_outcome-HasEnded (apply_event e event w).0 (apply_event e event w).1
          (λ found. apply_event-HasEnded w distinct consistent over found processed) h processed

    -- In an environment as `IsEnv` assumes, where no two calls have the same id and the derived
    -- fields of every call agree with its state: when an event whose type stands for a final state
    -- is processed, with the result PROCESSED, a call with the event's provider and provider call id
    -- is stored and over when the processor returns, whatever the others did meanwhile.
    pub process_event-HasEnded :
        (w : World) (target : CallState)
        → IsDistinct (λ (x : Call). x.id) w.db.calls
        → All IsConsistent w.db.calls
        → event_type_to_call_state event.event_type ≡ some target
        → is_terminal target ≡ true
        → (process_event e event w).0 ≡ Outcome.ok result
        → result.status ≡ EventProcessingStatus.processed
        → HasEnded event (process_event e event w).1.db.calls
    unfolding process_event ◌>>=◌
    process_event-HasEnded w target distinct consistent means over returned processed =
        let recorded = record_event e event w in
        let r =
          continue-Returned recorded.0 recorded.1 (process_recorded e event) result returned in
        let reached = (Moves-record_event e law event).at w in
        subst (λ out. HasEnded event out.1.db.calls) (sym r.rest)
          (process_recorded-HasEnded r.value recorded.1 (calls-IsDistinct reached distinct)
            (calls-IsConsistent reached consistent)
            (λ t also. subst (λ x. is_terminal x ≡ true) (same_state means also) over)
            (ap (λ out. out.0) (sym r.rest) ∙ returned) processed)
