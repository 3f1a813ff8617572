-- ===== src/Providers/Tally.antt =====
-- What a mock provider counts.
use smart_dialer.Base.{
  ℕ, ◌+◌, ◌≤◌, ◌<◌, ◌≡◌, Bool, true, false, Option, none, some, List, [], ◌∷◌, Star, here, next,
  arith,
}
use smart_dialer.Repositories.Events.{ProviderEvent}
use smart_dialer.Providers.Mock.{
  DeliveryTask, MockProvider, Fortune, Turn, originate, hang_up, deliver, outage, recovery, stop,
  answer_call, wait_for_carrier, originate_checked, originate_call, hang_up_task, hangup_call,
  deliver_task, deliver_next, deliver_event, force_outage, clear_outage, shutdown,
}
use smart_dialer.Settings.{Floats}
use smart_dialer.World.{ProviderCallStatus, OriginateRequest}

-- Every attempt is counted at most once as accepted, rejected or timed out, and there are as many
-- names of calls as accepted attempts.
pub record IsTallied {F : Type 0} (p : MockProvider F) : Type 0 where
  pub attempts :
      p.originate_accepted + p.originate_rejected + p.originate_timed_out ≤ p.originate_attempts
  pub names : p.call_counter ≡ p.originate_accepted

module _ {F : Type 0} where
  answer_call-IsTallied :
      (floats : Floats F) (fortune : Fortune F) (p : MockProvider F) (rejected : Bool)
      → p.originate_accepted + p.originate_rejected + p.originate_timed_out < p.originate_attempts
      → p.call_counter ≡ p.originate_accepted
      → IsTallied (answer_call floats fortune p rejected).1
  unfolding answer_call
  answer_call-IsTallied floats fortune p true room names = record {
    attempts = omega (arith, room);
    names = names;
  }
  answer_call-IsTallied floats fortune p false room names = record {
    attempts = omega (arith, room);
    names = omega (arith, names);
  }

  wait_for_carrier-IsTallied :
      (floats : Floats F) (fortune : Fortune F) (p : MockProvider F) (cancelled hangs : Bool)
      → p.originate_accepted + p.originate_rejected + p.originate_timed_out < p.originate_attempts
      → p.call_counter ≡ p.originate_accepted
      → IsTallied (wait_for_carrier floats fortune p cancelled hangs).1
  unfolding wait_for_carrier
  wait_for_carrier-IsTallied floats fortune p true hangs room names = record {
    attempts = omega (arith, room);
    names = names;
  }
  wait_for_carrier-IsTallied floats fortune p false true room names = record {
    attempts = omega (arith, room);
    names = names;
  }
  wait_for_carrier-IsTallied floats fortune p false false room names =
      answer_call-IsTallied floats fortune p _ room names

  originate_checked-IsTallied :
      (floats : Floats F) (fortune : Fortune F) (request : OriginateRequest) (p : MockProvider F)
      (blank : Bool)
      → IsTallied p
      → IsTallied (originate_checked floats fortune request p blank).1
  unfolding originate_checked
  originate_checked-IsTallied floats fortune request p true h = h
  originate_checked-IsTallied floats fortune request p false h =
      wait_for_carrier-IsTallied floats fortune _ _ _ (omega (arith, h.attempts)) h.names

  hang_up_task-IsTallied :
      (j : ℕ) (p : MockProvider F) (o : Option (DeliveryTask F))
      → IsTallied p
      → IsTallied (hang_up_task j p o)
  unfolding hang_up_task
  hang_up_task-IsTallied j p none h = h
  hang_up_task-IsTallied j p (some task) h = record { attempts = h.attempts; names = h.names }

  deliver_task-IsTallied :
      (j : ℕ) (p : MockProvider F) (final : ProviderCallStatus) (raised : Bool)
      (scheduled : List (F × ProviderEvent))
      → IsTallied p
      → IsTallied (deliver_task j p final raised scheduled)
  unfolding deliver_task
  deliver_task-IsTallied j p final raised [] h = record { attempts = h.attempts; names = h.names }
  deliver_task-IsTallied j p final true (entry ∷ rest) h = record {
    attempts = h.attempts;
    names = h.names;
  }
  deliver_task-IsTallied j p final false (entry ∷ rest) h = record {
    attempts = h.attempts;
    names = h.names;
  }

  deliver_next-IsTallied :
      (j : ℕ) (p : MockProvider F) (raised : Bool) (o : Option (DeliveryTask F))
      → IsTallied p
      → IsTallied (deliver_next j p raised o)
  unfolding deliver_next
  deliver_next-IsTallied j p raised none h = h
  deliver_next-IsTallied j p raised (some task) h =
      deliver_task-IsTallied j p task.final_status raised task.scheduled h

  -- Through any turns of a provider, its accepted, rejected and timed out originations are no more
  -- than its attempts, and it has given out as many names of calls as it has accepted, if it was so
  -- before.
  pub Turns-IsTallied :
      (floats : Floats F) (p q : MockProvider F)
      → Star (Turn floats) p q
      → IsTallied p
      → IsTallied q
  unfolding hangup_call deliver_event originate_call force_outage clear_outage shutdown
  Turns-IsTallied floats p q here h = h
  Turns-IsTallied floats p q (next {b} r (originate fortune request)) h =
      originate_checked-IsTallied floats fortune request b (fortune.is_blank request.phone_number)
        (Turns-IsTallied floats p b r h)
  Turns-IsTallied floats p q (next {b} r (hang_up j)) h =
      hang_up_task-IsTallied j b _ (Turns-IsTallied floats p b r h)
  Turns-IsTallied floats p q (next {b} r (deliver j raised)) h =
      deliver_next-IsTallied j b raised _ (Turns-IsTallied floats p b r h)
  Turns-IsTallied floats p q (next {b} r (outage now milliseconds)) h =
      let k = Turns-IsTallied floats p b r h in record { attempts = k.attempts; names = k.names }
  Turns-IsTallied floats p q (next {b} r recovery) h =
      let k = Turns-IsTallied floats p b r h in record { attempts = k.attempts; names = k.names }
  Turns-IsTallied floats p q (next {b} r stop) h =
      let k = Turns-IsTallied floats p b r h in record { attempts = k.attempts; names = k.names }
