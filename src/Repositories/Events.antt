-- ===== src/Repositories/Events.antt =====
-- app/repositories/event_repo.py
use smart_dialer.Base.{List, Option, String, length, map, none, reverse, some, true, ℕ, ◌&&◌, ◌==◌}
use smart_dialer.Errors.{Error, Outcome}
use smart_dialer.Model.{EventDocument, AppliedTransition}
use smart_dialer.Model.Enums.{EventProcessingStatus}
use smart_dialer.Store.{ascending, descending}
use smart_dialer.World.{query, Action, Env, ◌>>=◌, ◌>>◌, pure, raise, attempt, now, write_events}

-- app/providers/base.py; of the payload only the reason is read
pub record ProviderEvent : Type 0 where
  pub provider_name : ℕ
  pub provider_event_id : ℕ
  pub provider_call_id : ℕ
  pub event_type : String
  pub provider_timestamp : ℕ
  pub reason : Option String

pub data EventRecordResult : Type 0 where
  recorded duplicate : EventRecordResult

unfoldable pub event_document : ProviderEvent → ℕ → EventDocument
event_document event t = record {
  provider_name = event.provider_name;
  provider_event_id = event.provider_event_id;
  provider_call_id = event.provider_call_id;
  event_type = event.event_type;
  provider_timestamp = event.provider_timestamp;
  received_at = t;
  processing_status = none;
  applied_transition = none;
}

unfoldable pub record_result : Outcome (Unit {0}) → Action EventRecordResult
record_result (Outcome.ok _) = pure EventRecordResult.recorded
record_result (Outcome.raised Error.duplicate_key_error) = pure EventRecordResult.duplicate
record_result (Outcome.raised x) = raise x

-- `_to_provider_event`; the payload is not stored
abbrev pub to_provider_event : EventDocument → ProviderEvent
to_provider_event d = record {
  provider_name = d.provider_name;
  provider_event_id = d.provider_event_id;
  provider_call_id = d.provider_call_id;
  event_type = d.event_type;
  provider_timestamp = d.provider_timestamp;
  reason = none;
}

module _ {F : Type 0} (e : Env F) where
  unfoldable pub record_event : ProviderEvent → Action EventRecordResult
  unfolding record_result
  record_event event = do
    t ← now e
    attempt (write_events e (λ n. e.events_db.insert_one n (event_document event t))) record_result

  unfoldable pub mark_processed :
      ℕ → ℕ → EventProcessingStatus → Option AppliedTransition → Action (Unit {0})
  mark_processed provider_name provider_event_id status applied_transition = do
    write_events e λ n.
        e.events_db.find_one_and_update n
          (λ d. d.provider_name == provider_name && d.provider_event_id == provider_event_id)
          (λ d. record d {
            processing_status = some status;
            applied_transition = applied_transition;
          })
    pure tt

  unfoldable pub find_for_call : ℕ → Action (List EventDocument)
  find_for_call provider_call_id = query e λ n db.
      e.events_db.find n (λ d. d.provider_call_id == provider_call_id)
        (ascending (λ d. d.received_at)) (length db.events) db.events

  unfoldable pub find_provider_events_for_call : ℕ → Action (List ProviderEvent)
  unfolding find_for_call
  find_provider_events_for_call provider_call_id = do
    stored ← find_for_call provider_call_id
    pure (map to_provider_event stored)

  unfoldable pub find_latest : (limit : ℕ) → Action (List ProviderEvent)
  find_latest limit = do
    stored ←
        query e
          λ n db. e.events_db.find n (λ d. true) (descending (λ d. d.received_at)) limit db.events
    pure (map to_provider_event (reverse stored))
