-- ===== src/Safety/Evaluation.antt =====
-- The safety controller fails closed: what `evaluate` returns, whatever its reads return or raise.
use smart_dialer.Base.{
  ℕ, ◌≤◌, ◌<◌, ◌≡◌, refl, Bool, true, false, Option, List, [], ◌∷◌, All, Bool-cases, inl, inr, ◌==◌,
  ◌&&◌, ◌||◌, not, leb, arith, length, ◌⊎◌,
}
use smart_dialer.Errors.{Error, Outcome}
use smart_dialer.Model.Enums.{SafetyVerdict}
use smart_dialer.Model.{Campaign}
use smart_dialer.World.{World, Env, ◌>>=◌, pure, raise, now, attempt}
use smart_dialer.World.Yields.{Yields, Any, Yields-Any, Yields-pure, Yields-bind, Yields-attempt}
use smart_dialer.Safety.Availability.{AvailabilityDrop}
use smart_dialer.Safety.Constraints.{
  CapacityReading, PacingRequest, SafetyConstraintResult, SafetyDecision, smallest, mark_from,
  mark_binding, build_constraints,
}
use smart_dialer.Safety.Controller.{
  ringing_ceiling_for, is_stale, drop_ratio_of, decide, evaluate_checked, evaluate_outcome,
  persist_outcome, persist_decision, evaluate,
}
use smart_dialer.Safety.Limits.{decide-verdict, decide-capacity}

-- A decision that keeps to its limits, and whose verdict says so; without any limit, it rejects.
pub record IsSafe {F : Type 0} (request : PacingRequest) (d : SafetyDecision F) : Type 0 where
  pub asked : d.requested ≡ request.requested
  pub approved : d.approved ≤ d.requested
  pub limited : All (λ (c : SafetyConstraintResult F). d.approved ≤ c.limit) d.constraints
  pub refused : d.approved ≡ 0 → 0 < d.requested → d.verdict ≡ SafetyVerdict.rejected
  pub judged :
      (0 < length d.constraints) ⊎ ((d.approved ≡ 0) × (d.verdict ≡ SafetyVerdict.rejected))

-- The decision is safe, or the task was cancelled.
abbrev pub IsSafeOutcome : {F : Type 0} → PacingRequest → Outcome (SafetyDecision F) → Type 0
IsSafeOutcome request (Outcome.ok d) = IsSafe request d
IsSafeOutcome request (Outcome.raised x) = x ≡ Error.cancelled

-- What becomes of a calculation: its decision stands, and an error rejects.
abbrev pub IsClosed : {F : Type 0} → Outcome (SafetyDecision F) → SafetyDecision F → Type 0
IsClosed (Outcome.ok found) d = d ≡ found
IsClosed (Outcome.raised x) d = (d.approved ≡ 0) × (d.verdict ≡ SafetyVerdict.rejected)

abbrev pub IsClosedOutcome :
    {F : Type 0} → Outcome (SafetyDecision F) → Outcome (SafetyDecision F) → Type 0
IsClosedOutcome r (Outcome.ok d) = IsClosed r d
IsClosedOutcome r (Outcome.raised x) = x ≡ Error.cancelled

abbrev Cancelled : Outcome (Unit {0}) → Type 0
Cancelled (Outcome.ok _) = Unit
Cancelled (Outcome.raised x) = x ≡ Error.cancelled

-- As above, but any error may be raised.
abbrev IsSafeIfAny : {F : Type 0} → PacingRequest → Outcome (SafetyDecision F) → Type 0
IsSafeIfAny request (Outcome.ok d) = IsSafe request d
IsSafeIfAny request (Outcome.raised x) = Unit

module _ {F : Type 0} where
  smallest-least :
      (n requested : ℕ) (constraints : List (SafetyConstraintResult F))
      → n ≤ smallest requested constraints
      → All (λ (c : SafetyConstraintResult F). n ≤ c.limit) constraints
  unfolding smallest
  smallest-least n requested [] h = tt
  smallest-least n requested (c ∷ constraints) h =
      (omega (arith, h), smallest-least n requested constraints (omega (arith, h)))

  mark_from-limits :
      (n m : ℕ) (marked : Bool) (constraints : List (SafetyConstraintResult F))
      → All (λ (c : SafetyConstraintResult F). n ≤ c.limit) constraints
      → All (λ (c : SafetyConstraintResult F). n ≤ c.limit) (mark_from marked m constraints)
  unfolding mark_from
  mark_from-limits n m marked [] h = tt
  mark_from-limits n m marked (c ∷ constraints) h =
      (h.0, mark_from-limits n m (marked || (not marked && (c.limit == m))) constraints h.1)

  mark_binding-limits :
      (n m requested : ℕ) (constraints : List (SafetyConstraintResult F))
      → All (λ (c : SafetyConstraintResult F). n ≤ c.limit) constraints
      → All (λ (c : SafetyConstraintResult F). n ≤ c.limit) (mark_binding constraints m requested)
  unfolding mark_binding
  mark_binding-limits n m requested constraints h = elim (Bool-cases (leb requested m)) [
    | inl whole ↦ rw whole h
    | inr cut ↦ rw cut (mark_from-limits n m false constraints h)
  ]

  marked-judged :
      (c : SafetyConstraintResult F) (constraints : List (SafetyConstraintResult F))
      (m requested : ℕ)
      → 0 < length (mark_binding (c ∷ constraints) m requested)
  unfolding mark_binding mark_from
  marked-judged c constraints m requested = elim (Bool-cases (leb requested m)) [
    | inl whole ↦ rw whole (omega arith)
    | inr cut ↦ rw cut (omega arith)
  ]

module _ {F : Type 0} (e : Env F) (campaign : Campaign) (request : PacingRequest)
    (id : Option ℕ) where
  decide-IsSafe :
      (reading : CapacityReading F) (age : ℕ) (drop : Option (AvailabilityDrop F)) (t : ℕ)
      → IsSafe request (decide e campaign request id reading age drop t)
  unfolding decide build_constraints
  decide-IsSafe reading age drop t =
      let constraints =
        build_constraints e campaign request reading reading.available_agents
          (ringing_ceiling_for e reading) (is_stale e reading age) (drop_ratio_of e drop) in
      record {
        asked = refl;
        approved = (decide-capacity e campaign request id reading age drop t).0;
        limited =
            mark_binding-limits _ _ _ constraints
              (smallest-least _ request.requested constraints (omega arith));
        judged = inl (marked-judged _ _ _ request.requested);
        refused = λ none_left some_asked.
            (decide-verdict e campaign request id reading age drop t).0.1 (some_asked, none_left);
      }

  checked-safe : Yields (IsSafeIfAny request) (evaluate_checked e campaign request id)
  unfolding evaluate_checked
  checked-safe =
      Yields-bind Any _ _ _ (Yields-Any _)
        (λ reading _.
          Yields-bind Any _ _ _ (Yields-Any _)
            (λ t _.
              Yields-bind Any _ _ _ (Yields-Any _)
                (λ drop _.
                  Yields-bind Any _ _ _ (Yields-Any _)
                    (λ created_at _. Yields-pure _ _ (decide-IsSafe reading _ drop created_at))
                    (λ x _. tt))
                (λ x _. tt))
            (λ x _. tt))
        (λ x _. tt)

  outcome-safe :
      (r : Outcome (SafetyDecision F))
      → IsSafeIfAny request r
      → Yields (IsSafeOutcome request) (evaluate_outcome e campaign request id r)
  unfolding evaluate_outcome now ◌>>=◌ pure raise
  outcome-safe (Outcome.ok d) h = Yields-pure _ d h
  outcome-safe (Outcome.raised Error.cancelled) h = record { at = λ w. refl }
  outcome-safe (Outcome.raised _) h = record {
    at = λ w. record {
      asked = refl;
      approved = omega arith;
      limited = tt;
      refused = λ _ _. refl;
      judged = inr (refl, refl);
    };
  }

  persisted : (r : Outcome (Unit {0})) → Yields Cancelled (persist_outcome e r)
  unfolding persist_outcome raise
  persisted (Outcome.ok _) = Yields-pure _ _ tt
  persisted (Outcome.raised Error.cancelled) = record { at = λ w. refl }
  persisted (Outcome.raised _) = Yields-pure _ _ tt

  outcome-IsClosed :
      (r : Outcome (SafetyDecision F))
      → Yields (IsClosedOutcome r) (evaluate_outcome e campaign request id r)
  unfolding evaluate_outcome now ◌>>=◌ pure raise
  outcome-IsClosed (Outcome.ok d) = Yields-pure _ d refl
  outcome-IsClosed (Outcome.raised Error.cancelled) = record { at = λ w. refl }
  outcome-IsClosed (Outcome.raised _) = record { at = λ w. (refl, refl) }

  persist-keeps :
      (Q : Outcome (SafetyDecision F) → Type 0)
      → ((x : Error) → x ≡ Error.cancelled → Q (Outcome.raised x))
      → (persist : Bool) (d : SafetyDecision F) → Q (Outcome.ok d)
      → Yields Q (persist_decision e persist d)
  unfolding persist_decision raise pure
  persist-keeps Q cancels false d h = Yields-pure _ d h
  persist-keeps Q cancels true d h =
      Yields-bind Cancelled _ _ _ (Yields-attempt Any _ _ _ (Yields-Any _) (λ r _. persisted r))
        (λ _ _. Yields-pure _ d h) cancels

  -- Whatever the database and the clock answer, an evaluation returns a decision that keeps to
  -- the request and to each of its limits, and that is a rejection if it approves none of the
  -- calls requested, unless the task is cancelled: no other error passes. It returns what the
  -- calculation decided; if the calculation raised an error, it fails closed: it approves no call,
  -- and rejects.
  pub evaluate-IsSafe :
      (persist : Bool) (w : World)
      → IsSafeOutcome request (evaluate e campaign request id persist w).0
        × IsClosedOutcome
            (evaluate_checked e campaign request id w).0
            (evaluate e campaign request id persist w).0
  unfolding evaluate attempt ◌>>=◌
  evaluate-IsSafe persist w =
      let (r, later) = evaluate_checked e campaign request id w in
      (
        (Yields-bind (IsSafeOutcome request) (IsSafeOutcome request) _ _
              (Yields-attempt (IsSafeIfAny request) (IsSafeOutcome request) _ _ checked-safe
                outcome-safe)
              (λ d safe. persist-keeps (IsSafeOutcome request) (λ x c. c) persist d safe)
              (λ x h. h)).at
            w,
        (Yields-bind (IsClosedOutcome r) (IsClosedOutcome r)
              (λ _. evaluate_outcome e campaign request id r later) (persist_decision e persist)
              (record { at = λ _. (outcome-IsClosed r).at later })
              (λ d closed. persist-keeps (IsClosedOutcome r) (λ x c. c) persist d closed)
              (λ x h. h)).at
            w,
      )
