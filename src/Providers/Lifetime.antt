-- ===== src/Providers/Lifetime.antt =====
-- How long a mock provider's call is active, and what is reported of it then.
use smart_dialer.Base.{
  ℕ, zero, suc, ◌+◌, ◌≤◌, ◌≡◌, refl, sym, ◌∙◌, ◌==◌, ==→≡, Bool, true, false, Bool-cases,
  if◌then◌else◌, inl, inr, Option, none, some, List, [], ◌∷◌, length, lookup, lookup_or, put,
  lookup-put_same, lookup-put_other, lookup-without_same, lookup-without_other, Star, here, next,
  arith,
}
use mathlib.Core.Path.{subst}
use smart_dialer.Repositories.Events.{ProviderEvent}
use smart_dialer.Providers.Mock.{
  DeliveryTask, MockProvider, Fortune, Turn, originate, hang_up, deliver, outage, recovery, stop,
  answer_call, wait_for_carrier, originate_checked, originate_call, force_outage, clear_outage,
  shutdown, hang_up_task, hangup_call, get_call_status, deliver_task, deliver_next, deliver_event,
}
use smart_dialer.Settings.{Floats}
use smart_dialer.World.{ProviderCallStatus, OriginateRequest}

-- The call is over for the provider, with this status.
record IsSettled {F : Type 0} (id : ℕ) (status : ProviderCallStatus) (p : MockProvider F)
    : Type 0 where
  inactive : lookup id p.active_calls ≡ none
  finished : lookup id p.finished_calls ≡ some status
  named : id ≤ p.call_counter

new_call_other : (id n : ℕ) → id ≤ n → (n + 1 == id) ≡ false
new_call_other id n h = ground arith

finished_or :
    (id : ℕ) (status : ProviderCallStatus) (d : List (ℕ × ProviderCallStatus))
    → lookup id d ≡ some status
    → lookup_or id ProviderCallStatus.unknown d ≡ status
finished_or id status [] h = ground (arith, h)
finished_or id status ((j, s) ∷ d) h = ground (arith, h, finished_or id status d)

unknown_or :
    (id : ℕ) (d : List (ℕ × ProviderCallStatus))
    → lookup id d ≡ none
    → lookup_or id ProviderCallStatus.unknown d ≡ ProviderCallStatus.unknown
unknown_or id [] h = refl
unknown_or id ((j, s) ∷ d) h = ground (arith, h, unknown_or id d)

module _ {F : Type 0} where
  other_call :
      (id j : ℕ) (p : MockProvider F) (task : DeliveryTask F)
      → lookup id p.active_calls ≡ none
      → lookup j p.active_calls ≡ some task
      → (j == id) ≡ false
  other_call id j p task off on = elim (Bool-cases (j == id)) [
    | inl same ↦
        let off_too : lookup j p.active_calls ≡ none =
          subst (λ n. lookup n p.active_calls ≡ none) (sym (==→≡ j id same)) off in
        cc
    | inr other ↦ other
  ]

  module _ (id : ℕ) (status : ProviderCallStatus) where
    hang_up_task-IsSettled :
        (j : ℕ) (p : MockProvider F) (o : Option (DeliveryTask F))
        → lookup j p.active_calls ≡ o
        → IsSettled id status p
        → IsSettled id status (hang_up_task j p o)
    unfolding hang_up_task
    hang_up_task-IsSettled j p none eq h = h
    hang_up_task-IsSettled j p (some task) eq h =
        let other = other_call id j p task h.inactive eq in
        record {
          inactive = lookup-without_other j id _ other ∙ h.inactive;
          finished = lookup-put_other j id _ _ other ∙ h.finished;
          named = h.named;
        }

    deliver_task-IsSettled :
        (j : ℕ) (p : MockProvider F) (final : ProviderCallStatus) (raised : Bool)
        (scheduled : List (F × ProviderEvent))
        → (j == id) ≡ false
        → IsSettled id status p
        → IsSettled id status (deliver_task j p final raised scheduled)
    unfolding deliver_task
    deliver_task-IsSettled j p final raised [] other h = record {
      inactive = lookup-without_other j id _ other ∙ h.inactive;
      finished = lookup-put_other j id _ _ other ∙ h.finished;
      named = h.named;
    }
    deliver_task-IsSettled j p final true (entry ∷ rest) other h = record {
      inactive = lookup-without_other j id _ other ∙ h.inactive;
      finished = h.finished;
      named = h.named;
    }
    deliver_task-IsSettled j p final false (entry ∷ rest) other h = record {
      inactive = lookup-put_other j id _ _ other ∙ h.inactive;
      finished = h.finished;
      named = h.named;
    }

    deliver_next-IsSettled :
        (j : ℕ) (p : MockProvider F) (raised : Bool) (o : Option (DeliveryTask F))
        → lookup j p.active_calls ≡ o
        → IsSettled id status p
        → IsSettled id status (deliver_next j p raised o)
    unfolding deliver_next
    deliver_next-IsSettled j p raised none eq h = h
    deliver_next-IsSettled j p raised (some task) eq h =
        deliver_task-IsSettled j p task.final_status raised task.scheduled
          (other_call id j p task h.inactive eq) h

    answer_call-IsSettled :
        (floats : Floats F) (fortune : Fortune F) (p : MockProvider F) (rejected : Bool)
        → IsSettled id status p
        → IsSettled id status (answer_call floats fortune p rejected).1
    unfolding answer_call
    answer_call-IsSettled floats fortune p true h = record {
      inactive = h.inactive;
      finished = h.finished;
      named = h.named;
    }
    answer_call-IsSettled floats fortune p false h = record {
      inactive =
          lookup-put_other (p.call_counter + 1) id _ _ (new_call_other id p.call_counter h.named)
          ∙ h.inactive;
      finished = h.finished;
      named = omega (arith, h.named);
    }

    wait_for_carrier-IsSettled :
        (floats : Floats F) (fortune : Fortune F) (p : MockProvider F) (cancelled hangs : Bool)
        → IsSettled id status p
        → IsSettled id status (wait_for_carrier floats fortune p cancelled hangs).1
    unfolding wait_for_carrier
    wait_for_carrier-IsSettled floats fortune p true hangs h = h
    wait_for_carrier-IsSettled floats fortune p false true h = record {
      inactive = h.inactive;
      finished = h.finished;
      named = h.named;
    }
    wait_for_carrier-IsSettled floats fortune p false false h =
        answer_call-IsSettled floats fortune p _ h

    originate_checked-IsSettled :
        (floats : Floats F) (fortune : Fortune F) (request : OriginateRequest) (p : MockProvider F)
        (blank : Bool)
        → IsSettled id status p
        → IsSettled id status (originate_checked floats fortune request p blank).1
    unfolding originate_checked
    originate_checked-IsSettled floats fortune request p true h = h
    originate_checked-IsSettled floats fortune request p false h =
        wait_for_carrier-IsSettled floats fortune _ _ _
          (record { inactive = h.inactive; finished = h.finished; named = h.named })

    Turn-IsSettled :
        {floats : Floats F} {p q : MockProvider F}
        → Turn floats p q
        → IsSettled id status p
        → IsSettled id status q
    unfolding hangup_call deliver_event originate_call force_outage clear_outage shutdown
    Turn-IsSettled {floats} {p} (originate fortune request) h =
        originate_checked-IsSettled floats fortune request p _ h
    Turn-IsSettled {p} (hang_up j) h = hang_up_task-IsSettled j p _ refl h
    Turn-IsSettled {p} (deliver j raised) h = deliver_next-IsSettled j p raised _ refl h
    Turn-IsSettled {p} (outage now milliseconds) h = record {
      inactive = h.inactive;
      finished = h.finished;
      named = h.named;
    }
    Turn-IsSettled {p} recovery h = record {
      inactive = h.inactive;
      finished = h.finished;
      named = h.named;
    }
    Turn-IsSettled {p} stop h = record { inactive = refl; finished = h.finished; named = h.named }

    Star-IsSettled :
        {floats : Floats F} {p q : MockProvider F}
        → Star (Turn floats) p q
        → IsSettled id status p
        → IsSettled id status q
    Star-IsSettled here h = h
    Star-IsSettled (next r turn) h = Turn-IsSettled turn (Star-IsSettled r h)

    settled_status : (p : MockProvider F) → IsSettled id status p → get_call_status id p ≡ status
    unfolding get_call_status
    settled_status p h = rw h.inactive (finished_or id status p.finished_calls h.finished)

  hang_up_task-settles :
      (id : ℕ) (p : MockProvider F) (task : DeliveryTask F) (o : Option (DeliveryTask F))
      → o ≡ some task
      → id ≤ p.call_counter
      → IsSettled id ProviderCallStatus.completed (hang_up_task id p o)
  unfolding hang_up_task
  hang_up_task-settles id p task none eq named = ground (arith, eq)
  hang_up_task-settles id p task (some _) eq named = record {
    inactive = lookup-without_same id p.active_calls;
    finished = lookup-put_same id _ p.finished_calls;
    named = named;
  }

  -- A call that is active when it is hung up is reported as completed ever after, whatever the
  -- provider does next.
  pub hangup_call-final :
      (floats : Floats F) (id : ℕ) (p q : MockProvider F) (task : DeliveryTask F)
      → lookup id p.active_calls ≡ some task
      → id ≤ p.call_counter
      → Star (Turn floats) (hangup_call id p) q
      → get_call_status id q ≡ ProviderCallStatus.completed
  unfolding hangup_call
  hangup_call-final floats id p q task active named turns =
      settled_status id ProviderCallStatus.completed q (
        Star-IsSettled id ProviderCallStatus.completed turns
          (hang_up_task-settles id p task (lookup id p.active_calls) active named))

  -- n turns of a call's task; `raises i` says whether the i-th event's delivery raises
  unfoldable pub deliver_times : (n id : ℕ) (raises : ℕ → Bool) → MockProvider F → MockProvider F
  unfolding deliver_event
  deliver_times zero id raises p = p
  deliver_times (suc n) id raises p =
      deliver_times n id (λ i. raises (suc i)) (deliver_event id (raises 0) p)

  -- what is reported of a call at the end: its final status, unless a delivery raised
  abbrev pub status_at_end :
      (raises : ℕ → Bool) → ProviderCallStatus → List (F × ProviderEvent) → ProviderCallStatus
  status_at_end raises final [] = final
  status_at_end raises final (entry ∷ rest) =
      let later = status_at_end (λ i. raises (suc i)) final rest in
      if raises 0 then ProviderCallStatus.unknown else later

  -- A call without a task stays so, and what is reported of it stays unknown.
  no_task-unknown :
      (n id : ℕ) (raises : ℕ → Bool) (p : MockProvider F)
      → lookup id p.active_calls ≡ none
      → lookup id p.finished_calls ≡ none
      → get_call_status id (deliver_times n id raises p) ≡ ProviderCallStatus.unknown
  unfolding deliver_times deliver_event deliver_next get_call_status
  no_task-unknown zero id raises p off fresh = rw off (unknown_or id p.finished_calls fresh)
  no_task-unknown (suc n) id raises p off fresh =
      let same : deliver_event id (raises 0) p ≡ p = rw off refl in
      subst
        (λ q.
          get_call_status id (deliver_times n id (λ i. raises (suc i)) q)
          ≡ ProviderCallStatus.unknown)
        (sym same) (no_task-unknown n id (λ i. raises (suc i)) p off fresh)

  -- The task of an active call, of which no end was reported yet, ends after as many turns as it
  -- has events, and one, whichever deliveries raise: the provider then reports the status that the
  -- script ends with if none raised, and UNKNOWN if one did, and not ACTIVE.
  pub deliver_times-ends :
      (id : ℕ) (raises : ℕ → Bool) (p : MockProvider F) (final : ProviderCallStatus)
      (scheduled : List (F × ProviderEvent))
      → lookup id p.active_calls ≡ some (record { scheduled = scheduled; final_status = final })
      → lookup id p.finished_calls ≡ none
      → get_call_status id (deliver_times (suc (length scheduled)) id raises p)
        ≡ status_at_end raises final scheduled
  unfolding deliver_times deliver_event deliver_next deliver_task get_call_status
  deliver_times-ends id raises p final [] active fresh = rw active (
      rw (lookup-without_same id p.active_calls) (
        finished_or id final (put id final p.finished_calls)
          (lookup-put_same id final p.finished_calls)))
  deliver_times-ends id raises p final (entry ∷ rest) active fresh = elim (Bool-cases (raises 0)) [
    | inl raised ↦
        let step : deliver_event id (raises 0) p ≡ deliver_task id p final true (entry ∷ rest) =
          rw (active, raised) refl in
        rw raised (
          subst
            (λ q.
              get_call_status id (deliver_times (suc (length rest)) id (λ i. raises (suc i)) q)
              ≡ ProviderCallStatus.unknown)
            (sym step)
            (no_task-unknown (suc (length rest)) id (λ i. raises (suc i))
              (deliver_task id p final true (entry ∷ rest)) (lookup-without_same id p.active_calls)
              fresh))
    | inr delivered ↦
        let step : deliver_event id (raises 0) p ≡ deliver_task id p final false (entry ∷ rest) =
          rw (active, delivered) refl in
        rw delivered (
          subst
            (λ q.
              get_call_status id (deliver_times (suc (length rest)) id (λ i. raises (suc i)) q)
              ≡ status_at_end (λ i. raises (suc i)) final rest)
            (sym step)
            (deliver_times-ends id (λ i. raises (suc i))
              (deliver_task id p final false (entry ∷ rest)) final rest
              (lookup-put_same id _ p.active_calls) fresh))
  ]
