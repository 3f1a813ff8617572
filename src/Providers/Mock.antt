-- ===== src/Providers/Mock.antt =====
-- app/providers/mock_base.py: what a mock provider keeps, and its operations. The i-th call of a
-- provider is named by its number. A call's task is the script that it still has to deliver.
use smart_dialer.Base.{
  ℕ, ◌+◌, Bool, true, false, String, ltb, ◌||◌, not, Option, none, some, List, [], ◌∷◌, lookup,
  lookup_or, without, put,
}
use smart_dialer.Errors.{Error, Outcome}
use smart_dialer.Repositories.Events.{ProviderEvent}
use smart_dialer.Settings.{Floats}
use smart_dialer.Providers.Script.{MockBehaviour, Draws, Naming, build_event_script}
use smart_dialer.World.{OriginateRequest, OriginateResult, ProviderCallStatus}

-- `_active_calls`: the events of a call's task, and the status that it ends with
pub record DeliveryTask (F : Type 0) : Type 0 where
  pub scheduled : List (F × ProviderEvent)
  pub final_status : ProviderCallStatus

pub record MockProvider (F : Type 0) : Type 0 where
  pub call_counter : ℕ
  pub active_calls : List (ℕ × DeliveryTask F)
  pub finished_calls : List (ℕ × ProviderCallStatus)
  pub outage_until : Option ℕ
  pub originate_attempts : ℕ
  pub originate_accepted : ℕ
  pub originate_rejected : ℕ
  pub originate_timed_out : ℕ

-- What time and chance bring to one origination: the draws, the latency in seconds and as it is
-- measured, the monotonic time, and whether the caller cancels the request while it sleeps.
-- `is_blank` is `not phone_number.strip()`.
pub record Fortune (F : Type 0) : Type 0 where
  pub is_blank : String → Bool
  pub now : ℕ
  pub hang_draw : F
  pub latency_seconds : F
  pub latency_ms : ℕ
  pub cancelled : Bool
  pub failure_draw : F
  pub behaviour : MockBehaviour F
  pub draws : Draws F
  pub naming : (provider_call_id : ℕ) → Naming

-- `until is not None and now < until`
abbrev before_end : (now : ℕ) → Option ℕ → Bool
before_end t none = false
before_end t (some end) = ltb t end

-- `_is_in_outage`
abbrev pub is_in_outage : {F : Type 0} → (now : ℕ) → MockProvider F → Bool
is_in_outage t p = before_end t p.outage_until

-- what a provider says of itself, without its name
pub record ProviderHealthSnapshot : Type 0 where
  pub in_outage : Bool
  pub originate_attempts : ℕ
  pub originate_accepted : ℕ
  pub originate_rejected : ℕ
  pub originate_timed_out : ℕ

module _ {F : Type 0} (floats : Floats F) where
  abbrev count_attempt : MockProvider F → MockProvider F
  count_attempt p = record p { originate_attempts = p.originate_attempts + 1 }

  -- the carrier's answer, after the latency
  unfoldable pub answer_call :
      Fortune F → MockProvider F → (rejected : Bool) → Outcome OriginateResult × MockProvider F
  answer_call fortune p true = (
    Outcome.ok (record {
      accepted = false;
      latency_ms = fortune.latency_ms;
      provider_call_id = none;
      error_code = some "carrier_rejected";
    }),
    record p { originate_rejected = p.originate_rejected + 1 },
  )
  answer_call fortune p false =
      let provider_call_id = p.call_counter + 1 in
      let script =
        build_event_script floats fortune.behaviour fortune.draws
          (fortune.naming provider_call_id) in
      (
        Outcome.ok (record {
          accepted = true;
          latency_ms = fortune.latency_ms;
          provider_call_id = some provider_call_id;
          error_code = none;
        }),
        record p {
          call_counter = provider_call_id;
          originate_accepted = p.originate_accepted + 1;
          active_calls =
              put provider_call_id (record { scheduled = script.0; final_status = script.1 })
                p.active_calls;
        },
      )

  -- the part of `originate_call` that sleeps
  unfoldable pub wait_for_carrier :
      Fortune F
      → MockProvider F
      → (cancelled hangs : Bool) → Outcome OriginateResult × MockProvider F
  unfolding answer_call
  wait_for_carrier fortune p true hangs = (Outcome.raised Error.cancelled, p)
  wait_for_carrier fortune p false true = (
    Outcome.raised Error.provider_timeout,
    record p { originate_timed_out = p.originate_timed_out + 1 },
  )
  wait_for_carrier fortune p false false =
      answer_call fortune p (floats.lt fortune.failure_draw fortune.behaviour.failure_rate)

  -- the two tests before `_hang_until_timeout`
  abbrev pub hangs : Fortune F → OriginateRequest → MockProvider F → Bool
  hangs fortune request p =
      is_in_outage fortune.now p
      || floats.lt fortune.hang_draw fortune.behaviour.hang_rate
      || not (
          floats.lt fortune.latency_seconds
            (floats.div (floats.of_ℕ request.timeout_ms) (floats.of_ℕ 1000)))

  -- `originate_call` after the test of the phone number
  unfoldable pub originate_checked :
      Fortune F
      → OriginateRequest
      → MockProvider F
      → (blank : Bool) → Outcome OriginateResult × MockProvider F
  unfolding wait_for_carrier
  originate_checked fortune request p true =
      (Outcome.raised (Error.provider_rejected "phone_number is required"), p)
  originate_checked fortune request p false =
      wait_for_carrier fortune (count_attempt p) fortune.cancelled
        (hangs fortune request (count_attempt p))

  unfoldable pub originate_call :
      Fortune F → OriginateRequest → MockProvider F → Outcome OriginateResult × MockProvider F
  unfolding originate_checked
  originate_call fortune request p =
      originate_checked fortune request p (fortune.is_blank request.phone_number)

module _ {F : Type 0} where
  -- `hangup_call`, once the task is looked up
  unfoldable pub hang_up_task : ℕ → MockProvider F → Option (DeliveryTask F) → MockProvider F
  hang_up_task provider_call_id p none = p
  hang_up_task provider_call_id p (some task) = record p {
    active_calls = without provider_call_id p.active_calls;
    finished_calls = put provider_call_id ProviderCallStatus.completed p.finished_calls;
  }

  unfoldable pub hangup_call : ℕ → MockProvider F → MockProvider F
  unfolding hang_up_task
  hangup_call provider_call_id p =
      hang_up_task provider_call_id p (lookup provider_call_id p.active_calls)

  abbrev pub status_of : ProviderCallStatus → Option (DeliveryTask F) → ProviderCallStatus
  status_of finished none = finished
  status_of finished (some task) = ProviderCallStatus.active

  unfoldable pub get_call_status : ℕ → MockProvider F → ProviderCallStatus
  get_call_status provider_call_id p =
      status_of (lookup_or provider_call_id ProviderCallStatus.unknown p.finished_calls)
        (lookup provider_call_id p.active_calls)

  -- One event of a call's task is delivered; after the last one the task ends. If `_on_event`
  -- raises, the task ends too, and the call is not finished.
  unfoldable pub deliver_task :
      ℕ
      → MockProvider F
      → ProviderCallStatus
      → (raised : Bool) → List (F × ProviderEvent)
      → MockProvider F
  deliver_task provider_call_id p final_status raised [] = record p {
    active_calls = without provider_call_id p.active_calls;
    finished_calls = put provider_call_id final_status p.finished_calls;
  }
  deliver_task provider_call_id p final_status true (entry ∷ rest) = record p {
    active_calls = without provider_call_id p.active_calls;
  }
  deliver_task provider_call_id p final_status false (entry ∷ rest) = record p {
    active_calls =
        put provider_call_id (record { scheduled = rest; final_status = final_status })
          p.active_calls;
  }

  unfoldable pub deliver_next :
      ℕ → MockProvider F → (raised : Bool) → Option (DeliveryTask F) → MockProvider F
  unfolding deliver_task
  deliver_next provider_call_id p raised none = p
  deliver_next provider_call_id p raised (some task) =
      deliver_task provider_call_id p task.final_status raised task.scheduled

  -- `_deliver_events`, one turn of its loop or its end; `raised` says whether `_on_event` raises
  unfoldable pub deliver_event : ℕ → (raised : Bool) → MockProvider F → MockProvider F
  unfolding deliver_next
  deliver_event provider_call_id raised p =
      deliver_next provider_call_id p raised (lookup provider_call_id p.active_calls)

  -- of app/providers/mock_b.py
  unfoldable pub force_outage : (now milliseconds : ℕ) → MockProvider F → MockProvider F
  force_outage t milliseconds p = record p { outage_until = some (t + milliseconds) }

  unfoldable pub clear_outage : MockProvider F → MockProvider F
  clear_outage p = record p { outage_until = none }

  -- every task is cancelled, and none of them finishes its call
  unfoldable pub shutdown : MockProvider F → MockProvider F
  shutdown p = record p { active_calls = [] }

  unfoldable pub health_snapshot : (now : ℕ) → MockProvider F → ProviderHealthSnapshot
  health_snapshot t p = record {
    in_outage = is_in_outage t p;
    originate_attempts = p.originate_attempts;
    originate_accepted = p.originate_accepted;
    originate_rejected = p.originate_rejected;
    originate_timed_out = p.originate_timed_out;
  }

-- One turn of a provider.
pub data Turn {F : Type 0} (floats : Floats F) (p : MockProvider F) : MockProvider F → Type 0 where
  originate :
      (fortune : Fortune F) (request : OriginateRequest)
      → Turn floats p (originate_call floats fortune request p).1
  hang_up : (id : ℕ) → Turn floats p (hangup_call id p)
  deliver : (id : ℕ) (raised : Bool) → Turn floats p (deliver_event id raised p)
  outage : (now milliseconds : ℕ) → Turn floats p (force_outage now milliseconds p)
  recovery : Turn floats p (clear_outage p)
  stop : Turn floats p (shutdown p)
