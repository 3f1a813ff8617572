-- ===== src/Safety/Limits.antt =====
-- The safety controller's decision, from what it has read.
use smart_dialer.Base.{
  ◌∙◌, ==→≡, ap, sym, ℕ, zero, suc, ◌-◌, ◌≤◌, ◌<◌, ◌≡◌, refl, min, true, false, Option, none, some,
  List, [], ◌∷◌, ◌==◌, ◌⊎◌, inl, inr, ◌↔◌, Bool-cases, leb, arith,
}
use smart_dialer.Store.{Stored}
use smart_dialer.Model.Enums.{ProviderHealthStatus, SafetyVerdict}
use smart_dialer.Model.{Campaign}
use smart_dialer.World.{Env}
use smart_dialer.Safety.Fallback.{FallbackReason}
use smart_dialer.Safety.Availability.{AvailabilityDrop}
use smart_dialer.Safety.Constraints.{
  PacingRequest, SafetyConstraintResult, SafetyDecision, CapacityReading, health_limit, smallest,
  mark_from, mark_binding, first_binding, verdict, build_constraints,
}
use smart_dialer.Safety.Controller.{ringing_ceiling_for, is_stale, drop_ratio_of, decide}

min-cases : (a b : ℕ) → (min a b ≡ a) ⊎ (min a b ≡ b)
min-cases a b = ground arith

-- a constraint whose limit is `m`, of `constraints` as they are marked, which is reported first
record Binds {F : Type 0} (m : ℕ) (marked : List (SafetyConstraintResult F)) : Type 0 where
  constraint : SafetyConstraintResult F
  place : Stored marked constraint
  exact : constraint.limit ≡ m
  bound : constraint.binding ≡ true
  reported : first_binding marked ≡ some constraint.name

module _ {F : Type 0} where
  abbrev Attained : ℕ → List (SafetyConstraintResult F) → Type 0
  Attained m [] = ⊥
  Attained m (c ∷ constraints) = (c.limit ≡ m) ⊎ Attained m constraints

  smallest-Attained :
      (requested m : ℕ) (constraints : List (SafetyConstraintResult F))
      → smallest requested constraints ≡ m
      → m < requested
      → Attained m constraints
  unfolding smallest
  smallest-Attained requested m [] h less = omega (arith, h, less)
  smallest-Attained requested m (c ∷ constraints) h less =
      elim (min-cases c.limit (smallest requested constraints)) [
        | inl least ↦ inl (sym least ∙ h)
        | inr least ↦ inr (smallest-Attained requested m constraints (sym least ∙ h) less)
      ]

  Attained-Binds :
      (m : ℕ) (constraints : List (SafetyConstraintResult F))
      → Attained m constraints
      → Binds m (mark_from false m constraints)
  unfolding mark_from first_binding
  Attained-Binds m [] h = absurd h
  Attained-Binds m (c ∷ constraints) h = elim (Bool-cases (c.limit == m)) [
    | inl fits ↦ rw fits (record {
      constraint = record c { binding = true };
      place = record { left = []; right = _; split = refl };
      exact = ==→≡ _ _ fits;
      bound = refl;
      reported = refl;
    })
    | inr misses ↦
        let later : Attained m constraints = elim h [
          | inl same ↦ absurd (ground (arith, same, misses))
          | inr behind ↦ behind
        ] in
        let b = Attained-Binds m constraints later in
        rw misses (record {
          constraint = b.constraint;
          place = record {
            left = record c { binding = false } ∷ b.place.left;
            right = b.place.right;
            split = ap (λ xs. record c { binding = false } ∷ xs) b.place.split;
          };
          exact = b.exact;
          bound = b.bound;
          reported = b.reported;
        })
  ]

verdict-rejected :
    (requested approved : ℕ) (reason : Option FallbackReason)
    → (verdict requested approved reason ≡ SafetyVerdict.rejected)
      ↔ ((0 < requested) × (approved ≡ 0))
unfolding verdict
verdict-rejected zero approved reason = (λ h. ground arith, λ h. absurd (omega (arith, h.0)))
verdict-rejected (suc n) zero reason = (λ h. (omega arith, refl), λ h. refl)
verdict-rejected (suc n) (suc m) (some reason) =
    (λ h. ground arith, λ h. absurd (omega (arith, h.1)))
verdict-rejected (suc n) (suc m) none = (λ h. ground arith, λ h. absurd (omega (arith, h.1)))

verdict-full :
    (requested approved : ℕ) (reason : Option FallbackReason)
    → approved ≤ requested
    → verdict requested approved reason ≡ SafetyVerdict.approved
    → approved ≡ requested
unfolding verdict
verdict-full zero approved reason le h = omega arith
verdict-full (suc n) zero reason le h = ground arith
verdict-full (suc n) (suc m) (some reason) le h = ground arith
verdict-full (suc n) (suc m) none le h = ground arith

module _ {F : Type 0} (e : Env F) (campaign : Campaign) (request : PacingRequest) (id : Option ℕ)
    (reading : CapacityReading F) (age : ℕ) (drop : Option (AvailabilityDrop F)) (t : ℕ) where
  abbrev pub decision : SafetyDecision F
  unfolding decide
  decision = decide e campaign request id reading age drop t

  -- The calls that are approved are at most those requested, the agents that are available
  -- beyond the reserved ones, the room that is left in the campaign, and the room that is left
  -- under the ceiling of ringing calls.
  pub decide-capacity :
      (decision.approved ≤ request.requested)
      × (decision.approved ≤ reading.available_agents - reading.reserved_agents)
      × (decision.approved ≤ campaign.max_concurrent_calls - reading.active_calls)
      × (decision.approved ≤ ringing_ceiling_for e reading - reading.ringing_calls)
  unfolding decide build_constraints smallest
  decide-capacity = (omega arith, omega arith, omega arith, omega arith)

  -- No call is approved on a stale snapshot, or with an unhealthy provider.
  pub decide-stops :
      (is_stale e reading age ≡ true) ⊎ (reading.provider_status ≡ ProviderHealthStatus.unhealthy)
      → decision.approved ≡ 0
  unfolding decide build_constraints smallest health_limit
  decide-stops (inl stale) = rw stale (omega arith)
  decide-stops (inr unhealthy) = rw unhealthy (omega arith)

  -- The verdict is a rejection exactly if calls were requested and none is approved, and it is an
  -- approval only if all are.
  pub decide-verdict :
      ((decision.verdict ≡ SafetyVerdict.rejected)
        ↔ ((0 < request.requested) × (decision.approved ≡ 0)))
      × (decision.verdict ≡ SafetyVerdict.approved → decision.approved ≡ request.requested)
  unfolding decide
  decide-verdict = (verdict-rejected _ _ _, verdict-full _ _ _ decide-capacity.0)

  -- If fewer calls are approved than requested, the decision reports a constraint of its list by
  -- its name, that constraint is marked as binding, and its limit is the number approved.
  pub decide-binding :
      decision.approved < decision.requested
      → (c : SafetyConstraintResult F) × Stored decision.constraints c
        × (c.limit ≡ decision.approved)
        × (c.binding ≡ true)
        × (decision.binding_constraint ≡ some c.name)
  unfolding decide mark_binding
  decide-binding less =
      let constraints =
        build_constraints e campaign request reading reading.available_agents
          (ringing_ceiling_for e reading) (is_stale e reading age) (drop_ratio_of e drop) in
      let b =
        Attained-Binds _ constraints
          (smallest-Attained request.requested _ constraints refl less) in
      let cut : leb request.requested decision.approved ≡ false = ground (arith, less) in
      rw cut (b.constraint, b.place, b.exact, b.bound, b.reported)
