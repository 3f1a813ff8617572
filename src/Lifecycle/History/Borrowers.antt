-- ===== src/Lifecycle/History/Borrowers.antt =====
-- The history of one borrower.
use smart_dialer.Lifecycle.Steps.{RetryPolicy}
use smart_dialer.Base.{
  ℕ, ◌≡◌, refl, ap, true, false, Option, some, Star, here, next, Star-trans, ◌∙◌, All, All-replace,
  get, get-replace_steps, arith,
}
use mathlib.Core.Path.{subst}
use smart_dialer.Model.{Borrower}
use smart_dialer.Model.Enums.{BorrowerStatus}
use smart_dialer.World.{Database}
use smart_dialer.Lifecycle.Steps.{BorrowerStep, HasBudget, IsSpent, is_open, borrower_edge}
use smart_dialer.Lifecycle.Database.{
  Step, agent, borrower, call, new_call, event, new_event, campaign, new_campaign, Reach,
}

abbrev pub find_borrower : ℕ → Database → Option Borrower
find_borrower id s = get (λ (x : Borrower). x.id) id s.borrowers

-- What it has become in a later database.
pub record Later (k : RetryPolicy) (id : ℕ) (x : Borrower) (t : Database) : Type 0 where
  pub document : Borrower
  pub found : find_borrower id t ≡ some document
  pub steps : Star (BorrowerStep k) x document

stays :
    {k : RetryPolicy} (id : ℕ) (x : Borrower) {t : Database}
    → find_borrower id t ≡ some x
    → Later k id x t
stays id x h = record { document = x; found = h; steps = here }

Step-Later :
    {k : RetryPolicy} {s t : Database} (id : ℕ) (x : Borrower)
    → Step k s t
    → find_borrower id s ≡ some x
    → Later k id x t
Step-Later id x (agent left d d' right at step) h = stays id x h
Step-Later {k} id x (borrower left d d' right at step) h =
    let (y, found, steps) =
      get-replace_steps _ (BorrowerStep k) id x left d d' right step.same_id step (rw at at h) in
    record { document = y; found = found; steps = steps }
Step-Later id x (call left d d' right at step) h = stays id x h
Step-Later id x (new_call left d right at free _ _) h = stays id x h
Step-Later id x (event left d d' right at step) h = stays id x h
Step-Later id x (new_event left d right at free) h = stays id x h
Step-Later id x (campaign left d d' right at step) h = stays id x h
Step-Later id x (new_campaign left d right at free) h = stays id x h

-- A document that is stored stays stored, and changes by steps of its specification only.
pub Reach-Later :
    {k : RetryPolicy} {s t : Database} (id : ℕ) (x : Borrower)
    → Reach k s t
    → find_borrower id s ≡ some x
    → Later k id x t
Reach-Later id x here h = stays id x h
Reach-Later id x (next r st) h =
    let l = Reach-Later id x r h in
    let m = Step-Later id l.document st l.found in
    record { document = m.document; found = m.found; steps = Star-trans l.steps m.steps }

no_edge : (s t : BorrowerStatus) → is_open s ≡ false → borrower_edge s t ≡ true → ⊥
no_edge s t closed edge = ground arith

-- No step leaves a status that is closed.
closed-Star :
    {k : RetryPolicy} {a b : Borrower}
    → is_open a.status ≡ false
    → Star (BorrowerStep k) a b
    → b ≡ a
closed-Star closed here = refl
closed-Star {a} {b = c} closed (next {b} r s) =
    let same : b ≡ a = closed-Star closed r in
    absurd (
      no_edge a.status c.status closed
        (subst (λ (x : Borrower). borrower_edge x.status c.status ≡ true) same s.edge))

-- Whatever the workers do, a borrower that is contacted, exhausted, failed or not to be called is
-- never touched again.
pub closed_borrower_final :
    {k : RetryPolicy} {s t : Database} (id : ℕ) {b : Borrower}
    → Reach k s t
    → find_borrower id s ≡ some b
    → is_open b.status ≡ false
    → find_borrower id t ≡ some b
closed_borrower_final id {b} reached stored closed =
    let l = Reach-Later id b reached stored in l.found ∙ ap some (closed-Star closed l.steps)

-- What every step of a borrower keeps holds of every borrower, whatever the workers do.
borrowers-All :
    {k : RetryPolicy} {s t : Database} (P : Borrower → Type 0)
    → ((d d' : Borrower) → BorrowerStep k d d' → P d → P d')
    → Reach k s t
    → All P s.borrowers
    → All P t.borrowers
borrowers-All P keep here h = h
borrowers-All P keep (next r (agent left d d' right at x)) h = borrowers-All P keep r h
borrowers-All P keep (next r (borrower left d d' right at x)) h =
    All-replace P left d d' right (keep d d' x) (rw at at (borrowers-All P keep r h))
borrowers-All P keep (next r (call left d d' right at x)) h = borrowers-All P keep r h
borrowers-All P keep (next r (new_call left d right at _ fresh _)) h = borrowers-All P keep r h
borrowers-All P keep (next r (event left d d' right at x)) h = borrowers-All P keep r h
borrowers-All P keep (next r (new_event left d right at free)) h = borrowers-All P keep r h
borrowers-All P keep (next r (campaign left d d' right at x)) h = borrowers-All P keep r h
borrowers-All P keep (next r (new_campaign left d right at free)) h = borrowers-All P keep r h

-- Whatever the workers do, every borrower that may still be dialled, or is being dialled, has
-- attempts left.
pub attempts_bounded :
    {k : RetryPolicy} {s t : Database}
    → Reach k s t
    → All (HasBudget k.max_attempts) s.borrowers
    → All (HasBudget k.max_attempts) t.borrowers
attempts_bounded {k} = borrowers-All (HasBudget k.max_attempts) (λ d d' step. step.budget)

-- Whatever the workers do, every borrower that is exhausted has had the attempts.
pub exhausted-IsSpent :
    {k : RetryPolicy} {s t : Database}
    → Reach k s t
    → All (IsSpent k.max_attempts) s.borrowers
    → All (IsSpent k.max_attempts) t.borrowers
exhausted-IsSpent {k} = borrowers-All (IsSpent k.max_attempts) (λ d d' step _. step.spent)
