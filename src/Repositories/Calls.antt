-- ===== src/Repositories/Calls.antt =====
-- app/repositories/call_repo.py
pub mod Reports
use text.Mathlib.Text.{◌==◌ as same_text}
use smart_dialer.Base.{
  count_if, length, leb, ℕ, Bool, true, false, String, Option, none, some, List, ◌==◌, ◌&&◌, not,
  ltb, is_some, holds_value, map,
}
use smart_dialer.Errors.{Error, Outcome}
use smart_dialer.Model.{
  Call, IdempotencyKey, build_idempotency_key, same_key, derive_state_rank_and_terminal,
}
use smart_dialer.Model.Enums.{CallState, same_call_state}
use smart_dialer.StateMachines.Call.{rank, is_terminal}
use smart_dialer.Store.{unsorted, ascending}
use smart_dialer.World.{Action, Env, ◌>>=◌, pure, raise, attempt, now, fresh_id, query, write_calls}

-- a call as `create_call` builds it
unfoldable pub new_call : ℕ → ℕ → ℕ → ℕ → ℕ → ℕ → ℕ → Option ℕ → ℕ → Call
new_call id campaign_id agent_id borrower_id provider_name worker_id attempt_number retry_of t =
    record {
      id = id;
      campaign_id = campaign_id;
      agent_id = agent_id;
      borrower_id = borrower_id;
      state = CallState.queued;
      state_rank = rank CallState.queued;
      terminal = false;
      provider_name = provider_name;
      provider_call_id = none;
      idempotency_key = build_idempotency_key campaign_id agent_id borrower_id attempt_number;
      created_by_worker = worker_id;
      attempt = attempt_number;
      failure_reason = none;
      retry_of_call_id = retry_of;
      created_at = t;
      initiated_at = none;
      ringing_at = none;
      answered_at = none;
      connected_at = none;
      ended_at = none;
      updated_at = t;
    }

-- STATE_TIMESTAMP_FIELDS: the field that holds the time at which the state was entered
abbrev pub stamp_state : CallState → ℕ → Call → Call
stamp_state CallState.initiated t d = record d { initiated_at = some t }
stamp_state CallState.ringing t d = record d { ringing_at = some t }
stamp_state CallState.answered t d = record d { answered_at = some t }
stamp_state CallState.connected t d = record d { connected_at = some t }
stamp_state _ t d = d

abbrev pub stamp_end : Bool → ℕ → Call → Call
stamp_end true t d = record d { ended_at = some t }
stamp_end false t d = d

abbrev pub stamp_failure : Option String → Call → Call
stamp_failure none d = d
stamp_failure (some reason) d = record d { failure_reason = some reason }

-- the update of `transition_call`
unfoldable pub transitioned_call : CallState → Option String → ℕ → Call → Call
transitioned_call target reason t d = stamp_failure reason (
    stamp_end (is_terminal target) t (
      stamp_state target t (record d {
        state = target;
        state_rank = rank target;
        terminal = is_terminal target;
        updated_at = t;
      })))

-- `Call.from_mongo` on what a request found
unfoldable pub from_mongo : Action (Option Call) → Action (Option Call)
from_mongo request = do
  document ← request
  pure (elim document [ none ↦ none | some d ↦ some (derive_state_rank_and_terminal d) ])

unfoldable pub from_mongo_each : Action (List Call) → Action (List Call)
from_mongo_each request = do
  documents ← request
  pure (map derive_state_rank_and_terminal documents)

-- `Call.from_mongo(existing)`. With no document it raises pydantic's error, for which
-- `mongo_error` stands.
unfoldable pub existing_call : Option Call → Action Call
existing_call none = raise Error.mongo_error
existing_call (some d) = pure d

module _ {F : Type 0} (e : Env F) where
  unfoldable pub find_by_idempotency_key : IdempotencyKey → Action (Option Call)
  find_by_idempotency_key key =
      from_mongo
        (query e λ n db. e.calls_db.find_one n (λ d. same_key d.idempotency_key key) db.calls)

  -- the handler of DuplicateKeyError
  unfoldable pub after_insert : Call → Outcome (Unit {0}) → Action Call
  unfolding find_by_idempotency_key existing_call
  after_insert call (Outcome.ok _) = pure call
  after_insert call (Outcome.raised Error.duplicate_key_error) = do
    existing ← find_by_idempotency_key call.idempotency_key
    existing_call existing
  after_insert call (Outcome.raised x) = raise x

  unfoldable pub create_call : ℕ → ℕ → ℕ → ℕ → ℕ → ℕ → Option ℕ → Action Call
  unfolding after_insert
  create_call campaign_id agent_id borrower_id provider_name worker_id attempt_number retry_of = do
    id ← fresh_id e
    t ← now e
    let call =
        new_call id campaign_id agent_id borrower_id provider_name worker_id attempt_number retry_of
          t
    attempt (write_calls e (λ n. e.calls_db.insert_one n call)) (after_insert call)

  unfoldable pub find_call_by_id : ℕ → Action (Option Call)
  find_call_by_id call_id =
      from_mongo (query e λ n db. e.calls_db.find_one n (λ d. d.id == call_id) db.calls)

  unfoldable pub find_by_provider_call_id : ℕ → ℕ → Action (Option Call)
  find_by_provider_call_id provider_name provider_call_id = from_mongo (
      query e λ n db.
        e.calls_db.find_one n
          (λ d. d.provider_name == provider_name && holds_value d.provider_call_id provider_call_id)
          db.calls)

  -- the handler of DuplicateKeyError
  unfoldable pub none_if_duplicate : Outcome (Option Call) → Action (Option Call)
  none_if_duplicate (Outcome.ok found) = pure found
  none_if_duplicate (Outcome.raised Error.duplicate_key_error) = pure none
  none_if_duplicate (Outcome.raised x) = raise x

  unfoldable pub attach_provider_call_id : ℕ → Option ℕ → Action (Option Call)
  unfolding none_if_duplicate
  attach_provider_call_id call_id provider_call_id = do
    t ← now e
    from_mongo (
        attempt
          (write_calls e λ n.
            e.calls_db.find_one_and_update n
              (λ d. d.id == call_id && not (is_some d.provider_call_id))
              (λ d. record d { provider_call_id = provider_call_id; updated_at = t }))
          none_if_duplicate)

  unfoldable pub transition_call : ℕ → CallState → Option String → Action (Option Call)
  transition_call call_id target_state failure_reason = do
    t ← now e
    from_mongo (
        write_calls e λ n.
          e.calls_db.find_one_and_update n
            (λ d. d.id == call_id && not d.terminal && ltb d.state_rank (rank target_state))
            (transitioned_call target_state failure_reason t))

  unfoldable pub find_active : ℕ → ℕ → Action (List Call)
  find_active campaign_id limit = from_mongo_each (
      query e λ n db.
        e.calls_db.find n
          (λ d.
            d.campaign_id == campaign_id
            && not d.terminal
            && not (same_call_state d.state CallState.queued))
          unsorted limit db.calls)

  unfoldable pub find_stale_calls : ℕ → ℕ → Action (List Call)
  find_stale_calls older_than limit = from_mongo_each (
      query e λ n db.
        e.calls_db.find n (λ d. not d.terminal && ltb d.updated_at older_than)
          (ascending (λ d. d.updated_at)) limit db.calls)
