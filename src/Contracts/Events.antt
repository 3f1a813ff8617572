-- ===== src/Contracts/Events.antt =====
-- A provider's event that was recorded before.
use smart_dialer.Base.{
  suc, ◌≡◌, refl, true, false, none, List, All, All-middle, arith, ◌⊎◌, inl, inr,
}
use smart_dialer.Errors.{Error, Outcome}
use smart_dialer.Model.{EventDocument, event_clash}
use smart_dialer.Model.Enums.{EventProcessingStatus}
use smart_dialer.Store.{Stored, Reply, Inserted}
use smart_dialer.Repositories.Events.{ProviderEvent, event_document, record_event, record_result}
use smart_dialer.Services.EventProcessor.{process_event, process_recorded}
use smart_dialer.World.{World, Env, arrive, ◌>>=◌, now, attempt, write_events, pure, raise}
use smart_dialer.Lifecycle.Moves.{IsEnv}

no-clash :
    (doc other : EventDocument) (docs : List EventDocument)
    → Stored docs other
    → event_clash doc other ≡ true
    → All (λ x. event_clash doc x ≡ false) docs
    → ⊥
no-clash doc other docs at clash free =
    let apart : event_clash doc other ≡ false =
      All-middle (λ x. event_clash doc x ≡ false) at.left other at.right (rw (← at.split) free) in
    ground (arith, apart, clash)

-- An insertion beside a document that clashes writes nothing.
insertion-refused :
    (doc other : EventDocument) (docs : List EventDocument)
    (out : List EventDocument × Reply (Unit {0}))
    → Stored docs other
    → event_clash doc other ≡ true
    → Inserted event_clash doc docs out
    → (out ≡ (docs, Reply.duplicate_key)) ⊎ (out ≡ (docs, Reply.unavailable))
insertion-refused doc other docs out at clash (Inserted.stored left right split free eq) =
    absurd (no-clash doc other docs at clash free)
insertion-refused doc other docs out at clash (Inserted.refused _ _ _ eq) = inl eq
insertion-refused doc other docs out at clash (Inserted.failed eq) = inr eq
insertion-refused doc other docs out at clash (Inserted.lost left right split free eq) =
    absurd (no-clash doc other docs at clash free)

module _ {F : Type 0} (e : Env F) (law : IsEnv e) (event : ProviderEvent) (w : World) where
  -- In an environment as `IsEnv` assumes, an event whose provider and id are recorded when the
  -- request arrives is ignored: the request leaves the database as it finds it, and the result is
  -- DUPLICATE_IGNORED, or the error of a connection that failed.
  pub process_event-replay :
      (other : EventDocument)
      → Stored (arrive e w).events other
      → event_clash (event_document event (e.clock w.moment)) other ≡ true
      → ((process_event e event w).1 ≡ record w { db = arrive e w; moment = suc w.moment })
        × (((process_event e event w).0
              ≡ Outcome.ok (record {
                status = EventProcessingStatus.duplicate_ignored;
                applied_transition = none;
              }))
            ⊎ ((process_event e event w).0 ≡ Outcome.raised Error.mongo_error))
  unfolding process_event record_event ◌>>=◌ now attempt write_events record_result process_recorded
      pure raise
  process_event-replay other at clash =
      elim (insertion-refused _ other _ _ at clash (
        law.events_law.insert_law w.moment (event_document event (e.clock w.moment))
          (arrive e w).events)) [
            | inl eq ↦ rw eq (refl, inl refl)
            | inr eq ↦ rw eq (refl, inr refl)
          ]
