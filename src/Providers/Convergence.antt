-- ===== src/Providers/Convergence.antt =====
-- However a script's events are swapped and repeated, they bring the call to the end that the
-- provider reports.
use smart_dialer.Base.{
  ℕ, suc, ◌≤◌, String, ◌≡◌, refl, sym, ◌∙◌, true, false, Option, none, some, List, [], ◌∷◌, All,
  Any, ◌⊎◌, inl, inr, arith,
}
use mathlib.Core.Path.{subst}
use smart_dialer.Model.{Call}
use smart_dialer.Model.Enums.{CallState}
use smart_dialer.StateMachines.Call.{
  rank, is_terminal, EventApplicability, should_apply_event, can_transition,
}
use smart_dialer.Lifecycle.Steps.{IsConsistent}
use smart_dialer.Repositories.Calls.{transitioned_call}
use smart_dialer.Repositories.Events.{ProviderEvent}
use smart_dialer.Services.EventProcessor.{event_type_to_call_state, failure_reason}
use smart_dialer.Providers.Following.{applied_by, apply_to_document, follow}

-- an event that leads on to the final state: to that state, or on the way to it
abbrev pub LeadsTo : CallState → Option CallState → Type 0
LeadsTo final none = ⊥
LeadsTo final (some target) = (target ≡ final) ⊎ (is_terminal target ≡ false)

-- dialled and not over, or already in the final state
abbrev pub IsUnderWay : CallState → CallState → Type 0
IsUnderWay final s = (s ≡ final) ⊎ ((is_terminal s ≡ false) × (rank CallState.initiated ≤ rank s))

-- the state that an event leaves behind
abbrev settled : EventApplicability → (target s : CallState) → CallState
settled EventApplicability.apply target s = target
settled _ target s = s

settled-IsUnderWay :
    (final s target : CallState)
    → is_terminal final ≡ true
    → IsUnderWay final s
    → LeadsTo final (some target)
    → IsUnderWay final (settled (should_apply_event s target) target s)
unfolding should_apply_event can_transition
settled-IsUnderWay final s target over way leads = ground arith

settled-final :
    (final s : CallState)
    → is_terminal final ≡ true
    → IsUnderWay final s
    → settled (should_apply_event s final) final s ≡ final
unfolding should_apply_event can_transition
settled-final final s over way = ground arith

applied_by-state :
    (a : EventApplicability) (target : CallState) (reason : Option String) (t : ℕ) (c : Call)
    → (applied_by a target reason t c).state ≡ settled a target c.state
unfolding applied_by transitioned_call
applied_by-state a target reason t c = ground arith

applied_by-IsConsistent :
    (a : EventApplicability) (target : CallState) (reason : Option String) (t : ℕ) (c : Call)
    → IsConsistent c
    → IsConsistent (applied_by a target reason t c)
unfolding applied_by transitioned_call
applied_by-IsConsistent a target reason t c h = ground arith

-- The document is the call's as it was dialled, or later on the way to the final state.
pub record OnItsWay (final : CallState) (c : Call) : Type 0 where
  pub consistent : IsConsistent c
  pub under_way : IsUnderWay final c.state

module _ (final : CallState) (over : is_terminal final ≡ true) where
  document-OnItsWay :
      (target : Option CallState) (event : ProviderEvent) (t : ℕ) (c : Call)
      → LeadsTo final target
      → OnItsWay final c
      → OnItsWay final (apply_to_document target event t c)
  unfolding apply_to_document
  document-OnItsWay none event t c leads way = absurd leads
  document-OnItsWay (some target) event t c leads way =
      let reason = failure_reason event.reason target in
      let a = should_apply_event c.state target in
      record {
        consistent = applied_by-IsConsistent a target reason t c way.consistent;
        under_way =
            subst (IsUnderWay final) (sym (applied_by-state a target reason t c))
              (settled-IsUnderWay final c.state target over way.under_way leads);
      }

  document-final :
      (target : Option CallState) (event : ProviderEvent) (t : ℕ) (c : Call)
      → target ≡ some final
      → OnItsWay final c
      → (apply_to_document target event t c).state ≡ final
  unfolding apply_to_document
  document-final none event t c same way = ground (arith, same)
  document-final (some target) event t c same way =
      let here : target ≡ final = ground (arith, same) in
      applied_by-state _ target _ t c ∙ rw here (settled-final final c.state over way.under_way)

  -- a call that is over is left alone
  document-over :
      (target : Option CallState) (event : ProviderEvent) (t : ℕ) (c : Call)
      → c.state ≡ final
      → (apply_to_document target event t c).state ≡ final
  unfolding apply_to_document should_apply_event
  document-over none event t c same = same
  document-over (some target) event t c same =
      applied_by-state _ target _ t c ∙ rw same (rw over refl)

  module _ {F : Type 0} (clock : ℕ → ℕ) where
    abbrev entry_target : F × ProviderEvent → Option CallState
    entry_target entry = event_type_to_call_state entry.1.event_type

    follow-over :
        (n : ℕ) (events : List (F × ProviderEvent)) (c : Call)
        → c.state ≡ final
        → (follow clock n events c).state ≡ final
    unfolding follow
    follow-over n [] c same = same
    follow-over n ((delay, event) ∷ events) c same =
        follow-over (suc n) events _ (document-over _ event (clock n) c same)

    -- Events that lead to a final state, one of which is that state's, end the call there.
    pub follow-final :
        (n : ℕ) (events : List (F × ProviderEvent)) (c : Call)
        → All (λ x. LeadsTo final (entry_target x)) events
        → Any (λ x. entry_target x ≡ some final) events
        → OnItsWay final c
        → (follow clock n events c).state ≡ final
    unfolding follow
    follow-final n [] c leads ends way = absurd ends
    follow-final n ((delay, event) ∷ events) c leads (inl same) way =
        follow-over (suc n) events _ (document-final _ event (clock n) c same way)
    follow-final n ((delay, event) ∷ events) c leads (inr later) way =
        follow-final (suc n) events _ leads.1 later
          (document-OnItsWay _ event (clock n) c leads.0 way)
