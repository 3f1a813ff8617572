-- ===== src/Lifecycle/History/Calls.antt =====
-- The history of one call.
use smart_dialer.Lifecycle.Steps.{RetryPolicy}
use smart_dialer.Base.{
  ℕ, ◌≤◌, ◌≡◌, refl, ap, true, Option, some, Star, here, next, Star-trans, ◌∙◌, All, All-replace,
  All-insert, get, get-replace_steps, get-insert, arith,
}
use smart_dialer.Model.{Call}
use smart_dialer.StateMachines.Call.{rank, is_terminal}
use smart_dialer.World.{Database}
use smart_dialer.Lifecycle.Steps.{CallStep, CallProgress, IsConsistent}
use smart_dialer.Lifecycle.Database.{
  Step, agent, borrower, call, new_call, event, new_event, campaign, new_campaign, Reach,
}

abbrev pub find_call : ℕ → Database → Option Call
find_call id s = get (λ (x : Call). x.id) id s.calls

-- What it has become in a later database.
pub record Later (id : ℕ) (x : Call) (t : Database) : Type 0 where
  pub document : Call
  pub found : find_call id t ≡ some document
  pub steps : Star CallStep x document

stays : (id : ℕ) (x : Call) {t : Database} → find_call id t ≡ some x → Later id x t
stays id x h = record { document = x; found = h; steps = here }

Step-Later :
    {k : RetryPolicy} {s t : Database} (id : ℕ) (x : Call)
    → Step k s t
    → find_call id s ≡ some x
    → Later id x t
Step-Later id x (agent left d d' right at step) h = stays id x h
Step-Later id x (borrower left d d' right at step) h = stays id x h
Step-Later id x (call left d d' right at step) h =
    let (y, found, steps) =
      get-replace_steps _ (CallStep) id x left d d' right step.same_id step (rw at at h) in
    record { document = y; found = found; steps = steps }
Step-Later id x (new_call left d right at free _ _) h = record {
  document = x;
  found = get-insert _ id x left d right free (rw at at h);
  steps = here;
}
Step-Later id x (event left d d' right at step) h = stays id x h
Step-Later id x (new_event left d right at free) h = stays id x h
Step-Later id x (campaign left d d' right at step) h = stays id x h
Step-Later id x (new_campaign left d right at free) h = stays id x h

-- A document that is stored stays stored, and changes by steps of its specification only.
pub Reach-Later :
    {k : RetryPolicy} {s t : Database} (id : ℕ) (x : Call)
    → Reach k s t
    → find_call id s ≡ some x
    → Later id x t
Reach-Later id x here h = stays id x h
Reach-Later id x (next r st) h =
    let l = Reach-Later id x r h in
    let m = Step-Later id l.document st l.found in
    record { document = m.document; found = m.found; steps = Star-trans l.steps m.steps }

-- What any number of steps keeps.
record Kept (c d : Call) : Type 0 where
  consistent : IsConsistent d
  forward : rank c.state ≤ rank d.state
  final : is_terminal c.state ≡ true → d.state ≡ c.state
  same_agent : d.agent_id ≡ c.agent_id
  same_borrower : d.borrower_id ≡ c.borrower_id
  same_worker : d.created_by_worker ≡ c.created_by_worker
  same_provider : d.provider_name ≡ c.provider_name
  attached : (p : ℕ) → c.provider_call_id ≡ some p → d.provider_call_id ≡ some p

Kept-step : {c d e : Call} → Kept c d → CallStep d e → Kept c e
Kept-step {c} {d} {e} h s = record {
  consistent = s.consistent h.consistent;
  forward = forward-step h.forward h.consistent s.progress;
  final = λ t. final-step (h.final t) t h.consistent s.progress;
  same_agent = s.same_agent ∙ h.same_agent;
  same_borrower = s.same_borrower ∙ h.same_borrower;
  same_worker = s.same_worker ∙ h.same_worker;
  same_provider = s.same_provider ∙ h.same_provider;
  attached = λ p q. s.attached p (h.attached p q);
}
  where
    forward-step :
        rank c.state ≤ rank d.state
        → IsConsistent d
        → CallProgress d e
        → rank c.state ≤ rank e.state
    forward-step le k (CallProgress.kept same) = rw same le
    forward-step le k (CallProgress.moved live lt) = omega (arith, k.0)

    final-step :
        d.state ≡ c.state
        → is_terminal c.state ≡ true
        → IsConsistent d
        → CallProgress d e
        → e.state ≡ c.state
    final-step same over k (CallProgress.kept unmoved) = unmoved ∙ same
    final-step same over k (CallProgress.moved live lt) = cc (k.1, live, ap is_terminal same, over)

Star-Kept : {c d : Call} → IsConsistent c → Star CallStep c d → Kept c d
Star-Kept consistent here = record {
  consistent = consistent;
  forward = omega arith;
  final = λ e. refl;
  same_agent = refl;
  same_borrower = refl;
  same_worker = refl;
  same_provider = refl;
  attached = λ p e. e;
}
Star-Kept consistent (next r s) = Kept-step (Star-Kept consistent r) s

module _ {k : RetryPolicy} {s t : Database} (id : ℕ) {c : Call} (reached : Reach k s t)
    (stored : find_call id s ≡ some c) (consistent : IsConsistent c) where
  -- Whatever the workers do, a call that is stored stays stored with its agent, its borrower, its
  -- worker and its provider, its rank never falls, its derived fields agree with its state, and the
  -- provider's call id, once attached, stays.
  pub call_moves_forward :
      (d : Call) × (find_call id t ≡ some d)
      × (rank c.state ≤ rank d.state)
      × IsConsistent d
      × (d.agent_id ≡ c.agent_id)
      × (d.borrower_id ≡ c.borrower_id)
      × (d.created_by_worker ≡ c.created_by_worker)
      × (d.provider_name ≡ c.provider_name)
      × ((p : ℕ) → c.provider_call_id ≡ some p → d.provider_call_id ≡ some p)
  call_moves_forward =
      let l = Reach-Later id c reached stored in
      let h = Star-Kept consistent l.steps in
      (
        l.document, l.found, h.forward, h.consistent, h.same_agent, h.same_borrower, h.same_worker,
        h.same_provider, h.attached,
      )

  -- Whatever the workers do, a call that is over keeps its state.
  pub terminal_call_final :
      is_terminal c.state ≡ true → (d : Call) × (find_call id t ≡ some d) × (d.state ≡ c.state)
  terminal_call_final over =
      let l = Reach-Later id c reached stored in
      (l.document, l.found, (Star-Kept consistent l.steps).final over)

-- In every reachable database, the derived fields of every call agree with its state.
pub calls-IsConsistent :
    {k : RetryPolicy} {s t : Database}
    → Reach k s t
    → All IsConsistent s.calls
    → All IsConsistent t.calls
calls-IsConsistent here h = h
calls-IsConsistent (next r (agent left d d' right at x)) h = calls-IsConsistent r h
calls-IsConsistent (next r (borrower left d d' right at x)) h = calls-IsConsistent r h
calls-IsConsistent (next r (call left d d' right at x)) h =
    All-replace _ left d d' right x.consistent (rw at at (calls-IsConsistent r h))
calls-IsConsistent (next r (new_call left d right at _ fresh _)) h =
    All-insert _ left d right fresh (rw at at (calls-IsConsistent r h))
calls-IsConsistent (next r (event left d d' right at x)) h = calls-IsConsistent r h
calls-IsConsistent (next r (new_event left d right at free)) h = calls-IsConsistent r h
calls-IsConsistent (next r (campaign left d d' right at x)) h = calls-IsConsistent r h
calls-IsConsistent (next r (new_campaign left d right at free)) h = calls-IsConsistent r h
