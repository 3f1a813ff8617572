-- ===== src/Providers/Endings.antt =====
-- A mock provider's script brings its call to the status that the provider then reports.
use smart_dialer.Base.{
  ℕ, zero, suc, ◌≤◌, ◌≡◌, refl, Bool, true, false, some, List, [], ◌∷◌, All, Any, inl, inr,
  if◌then◌else◌,
}
use smart_dialer.Model.{Call}
use smart_dialer.Model.Enums.{CallState}
use smart_dialer.StateMachines.Call.{rank, is_terminal}
use smart_dialer.Lifecycle.Steps.{IsConsistent}
use smart_dialer.Repositories.Events.{ProviderEvent}
use smart_dialer.Services.EventProcessor.{event_type_to_call_state}
use smart_dialer.Providers.Script.{
  MockBehaviour, Draws, Naming, swap_at, repeat_at, script_steps, schedule, final_status,
  is_answered, apply_out_of_order, apply_duplication, build_event_script,
}
use smart_dialer.Providers.Following.{follow}
use smart_dialer.Providers.Convergence.{LeadsTo, follow-final}
use smart_dialer.Settings.{Floats}
use smart_dialer.Workers.Recovery.{provider_status_to_call_state}

module _ {A : Type 0} (P : A → Type 0) where
  swap_at-All : (i : ℕ) (xs : List A) → All P xs → All P (swap_at i xs)
  swap_at-All i [] h = tt
  swap_at-All i (x ∷ []) h = h
  swap_at-All zero (x ∷ y ∷ xs) h = (h.1.0, (h.0, h.1.1))
  swap_at-All (suc i) (x ∷ y ∷ xs) h = (h.0, swap_at-All i (y ∷ xs) h.1)

  swap_at-Any : (i : ℕ) (xs : List A) → Any P xs → Any P (swap_at i xs)
  swap_at-Any i [] h = h
  swap_at-Any i (x ∷ []) h = h
  swap_at-Any zero (x ∷ y ∷ xs) (inl p) = inr (inl p)
  swap_at-Any zero (x ∷ y ∷ xs) (inr (inl p)) = inl p
  swap_at-Any zero (x ∷ y ∷ xs) (inr (inr p)) = inr (inr p)
  swap_at-Any (suc i) (x ∷ y ∷ xs) (inl p) = inl p
  swap_at-Any (suc i) (x ∷ y ∷ xs) (inr p) = inr (swap_at-Any i (y ∷ xs) p)

  module _ (again : A → A) (same : (a : A) → P a → P (again a)) where
    repeat_at-All : (i : ℕ) (xs : List A) → All P xs → All P (repeat_at again i xs)
    repeat_at-All i [] h = tt
    repeat_at-All zero (x ∷ xs) h = (h.0, (same x h.0, h.1))
    repeat_at-All (suc i) (x ∷ xs) h = (h.0, repeat_at-All i xs h.1)

    repeat_at-Any : (i : ℕ) (xs : List A) → Any P xs → Any P (repeat_at again i xs)
    repeat_at-Any i [] h = h
    repeat_at-Any zero (x ∷ xs) (inl p) = inl p
    repeat_at-Any zero (x ∷ xs) (inr p) = inr (inr p)
    repeat_at-Any (suc i) (x ∷ xs) (inl p) = inl p
    repeat_at-Any (suc i) (x ∷ xs) (inr p) = inr (repeat_at-Any i xs p)

-- What a script keeps: its events lead to the final state, and one of them ends there.
abbrev Ends : {F : Type 0} → CallState → List (F × ProviderEvent) → Type 0
Ends final events =
    All (λ x. LeadsTo final (event_type_to_call_state x.1.event_type)) events
    × Any (λ x. event_type_to_call_state x.1.event_type ≡ some final) events

module _ {F : Type 0} (floats : Floats F) (behaviour : MockBehaviour F) (draws : Draws F) where
  either-Ends :
      (final : CallState) (b : Bool) (xs ys : List (F × ProviderEvent))
      → Ends final xs
      → Ends final ys
      → Ends final (if b then xs else ys)
  either-Ends final true xs ys p q = p
  either-Ends final false xs ys p q = q

  apply_out_of_order-Ends :
      (final : CallState) (scheduled : List (F × ProviderEvent))
      → Ends final scheduled
      → Ends final (apply_out_of_order floats behaviour draws scheduled)
  unfolding apply_out_of_order
  apply_out_of_order-Ends final scheduled h =
      either-Ends final _ _ _ (swap_at-All _ _ scheduled h.0, swap_at-Any _ _ scheduled h.1) h

  apply_duplication-Ends :
      (final : CallState) (scheduled : List (F × ProviderEvent))
      → Ends final scheduled
      → Ends final (apply_duplication floats behaviour draws scheduled)
  unfolding apply_duplication
  apply_duplication-Ends final scheduled h =
      either-Ends final _ _ _
        (repeat_at-All _ _ (λ a p. p) _ scheduled h.0, repeat_at-Any _ _ (λ a p. p) _ scheduled h.1)
        h

  steps-Ends :
      (answered : Bool) (naming : Naming)
      → Ends
          (provider_status_to_call_state (final_status floats answered))
          (schedule floats naming 0 (script_steps floats answered behaviour draws))
  unfolding event_type_to_call_state
  steps-Ends true naming =
      ((inr refl, (inr refl, (inr refl, (inl refl, tt)))), inr (inr (inr (inl refl))))
  steps-Ends false naming = ((inr refl, (inl refl, tt)), inr (inl refl))

  final_status-over :
      (answered : Bool)
      → is_terminal (provider_status_to_call_state (final_status floats answered)) ≡ true
  final_status-over true = refl
  final_status-over false = refl

  -- A call that was dialled and is not over, with derived fields that agree with its state, ends
  -- when the events of a mock provider's script are applied to it, however they are swapped and
  -- repeated: in the state that the recovery worker would give it by the provider's final status.
  pub build_event_script-ends :
      (naming : Naming) (clock : ℕ → ℕ) (n : ℕ) (c : Call)
      → IsConsistent c
      → is_terminal c.state ≡ false
      → rank CallState.initiated ≤ rank c.state
      → (follow clock n (build_event_script floats behaviour draws naming).0 c).state
        ≡ provider_status_to_call_state (build_event_script floats behaviour draws naming).1
  unfolding build_event_script
  build_event_script-ends naming clock n c consistent live dialled =
      let answered = is_answered floats behaviour draws in
      let final = provider_status_to_call_state (final_status floats answered) in
      let scheduled = schedule floats naming 0 (script_steps floats answered behaviour draws) in
      let ends =
        apply_duplication-Ends final _
          (apply_out_of_order-Ends final scheduled (steps-Ends answered naming)) in
      follow-final final (final_status-over answered) clock n _ c ends.0 ends.1
        (record { consistent = consistent; under_way = inr (live, dialled) })
