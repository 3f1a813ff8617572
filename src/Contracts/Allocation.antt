-- ===== src/Contracts/Allocation.antt =====
-- What `CallAllocator.allocate` does and counts.
use smart_dialer.Base.{
  ℕ, zero, suc, ◌+◌, ◌≤◌, ◌≡◌, refl, sym, ◌∙◌, ap, Bool, true, false, not, leb, Option, none, some,
  [], ◌∷◌, inl, inr, arith,
}
use mathlib.Core.Path.{subst}
use smart_dialer.Errors.{Outcome}
use smart_dialer.Model.{Campaign}
use smart_dialer.Services.CallAllocator.{
  AllocationResult, max_consecutive_contentions, allocate_round, count_round, allocate_rounds,
  allocate,
}
use smart_dialer.World.{World, Env, Action, ◌>>=◌, pure}
use smart_dialer.Contracts.Rounds.{Round, Rounds, Counted, no_counts, allocate_round-Round}
use smart_dialer.World.Returns.{continue-Returned}

module _ {F : Type 0} (e : Env F) (campaign : Campaign) (worker_id : ℕ) where
  abbrev goes_on : ℕ → AllocationResult × ℕ × Bool → Action AllocationResult
  goes_on rounds counts = elim counts.2 [
    | false ↦ pure counts.0
    | true ↦ allocate_rounds e rounds campaign worker_id counts.0 counts.1
  ]

  -- Further rounds are counted too.
  abbrev Later : ℕ → World → Type 0
  Later rounds v =
      (c : AllocationResult) (consecutive : ℕ) (d : AllocationResult)
      → (allocate_rounds e rounds campaign worker_id c consecutive v).0 ≡ Outcome.ok d
      → Counted e campaign worker_id rounds consecutive c v d
          (allocate_rounds e rounds campaign worker_id c consecutive v).1

  module _ (rounds consecutive : ℕ) (c : AllocationResult) (w v : World)
      (d : AllocationResult) where
    placed-Counted :
        (placed : Bool)
        → Round e campaign worker_id w (some placed) v
        → Later rounds v
        → (goes_on rounds (count_round (some placed) c consecutive) v).0 ≡ Outcome.ok d
        → Counted e campaign worker_id
            (suc rounds)
            consecutive
            c
            w
            d
            (goes_on rounds (count_round (some placed) c consecutive) v).1
    unfolding count_round
    placed-Counted true round later h =
        let k = later _ 0 d h in
        record {
          outcomes = some true ∷ k.outcomes;
          run = Rounds.next round k.run;
          attempted = omega (arith, k.attempted);
          allocated = omega (arith, k.allocated);
          failed = omega (arith, k.failed);
          contentions = omega (arith, k.contentions);
          bounded = omega (arith, k.bounded);
          stopped = ground (arith, k.stopped);
        }
    placed-Counted false round later h =
        let k = later _ 0 d h in
        record {
          outcomes = some false ∷ k.outcomes;
          run = Rounds.next round k.run;
          attempted = omega (arith, k.attempted);
          allocated = omega (arith, k.allocated);
          failed = omega (arith, k.failed);
          contentions = omega (arith, k.contentions);
          bounded = omega (arith, k.bounded);
          stopped = ground (arith, k.stopped);
        }

    abbrev contended_once : AllocationResult
    contended_once = record c { attempted = c.attempted + 1; contended = c.contended + 1 }

    contended-Counted :
        (goes : Bool)
        → not (leb max_consecutive_contentions (consecutive + 1)) ≡ goes
        → Round e campaign worker_id w none v
        → Later rounds v
        → (goes_on rounds (contended_once, consecutive + 1, goes) v).0 ≡ Outcome.ok d
        → Counted e campaign worker_id
            (suc rounds)
            consecutive
            c
            w
            d
            (goes_on rounds (contended_once, consecutive + 1, goes) v).1
    unfolding pure
    contended-Counted false enough round later h =
        let same : contended_once ≡ d = cc h in
        subst (λ x. Counted e campaign worker_id (suc rounds) consecutive c w x v) same
          (record {
            outcomes = none ∷ [];
            run = Rounds.next round Rounds.here;
            attempted = omega arith;
            allocated = omega arith;
            failed = omega arith;
            contentions = omega arith;
            bounded = omega arith;
            stopped = inr (ground (arith, enough));
          })
    contended-Counted true more round later h =
        let k = later contended_once (consecutive + 1) d h in
        record {
          outcomes = none ∷ k.outcomes;
          run = Rounds.next round k.run;
          attempted = omega (arith, k.attempted);
          allocated = omega (arith, k.allocated);
          failed = omega (arith, k.failed);
          contentions = omega (arith, k.contentions);
          bounded = omega (arith, k.bounded);
          stopped = ground (arith, k.stopped);
        }

    round-Counted :
        (outcome : Option Bool)
        → Round e campaign worker_id w outcome v
        → Later rounds v
        → (goes_on rounds (count_round outcome c consecutive) v).0 ≡ Outcome.ok d
        → Counted e campaign worker_id
            (suc rounds)
            consecutive
            c
            w
            d
            (goes_on rounds (count_round outcome c consecutive) v).1
    unfolding count_round
    round-Counted none round later h = contended-Counted _ refl round later h
    round-Counted (some placed) round later h = placed-Counted placed round later h

  rounds-Counted :
      (rounds : ℕ) (c : AllocationResult) (consecutive : ℕ) (w : World) (d : AllocationResult)
      → (allocate_rounds e rounds campaign worker_id c consecutive w).0 ≡ Outcome.ok d
      → Counted e campaign worker_id rounds consecutive c w d
          (allocate_rounds e rounds campaign worker_id c consecutive w).1
  unfolding allocate_rounds ◌>>=◌ pure
  rounds-Counted zero c consecutive w d h =
      let same : c ≡ d = cc h in
      subst (λ x. Counted e campaign worker_id 0 consecutive c w x w) same
        (record {
          outcomes = [];
          run = Rounds.here;
          attempted = omega arith;
          allocated = omega arith;
          failed = omega arith;
          contentions = omega arith;
          bounded = omega arith;
          stopped = inl refl;
        })
  rounds-Counted (suc rounds) c consecutive w d h =
      let one = allocate_round e campaign worker_id w in
      let r =
        continue-Returned one.0 one.1
          (λ outcome. goes_on rounds (count_round outcome c consecutive)) d h in
      subst (λ out. Counted e campaign worker_id (suc rounds) consecutive c w d out.1) (sym r.rest)
        (round-Counted rounds consecutive c w one.1 d r.value
          (allocate_round-Round e campaign worker_id w r.value r.first)
          (λ x n y k. rounds-Counted rounds x n one.1 y k) (ap (λ x. x.0) (sym r.rest) ∙ h))

  -- If something is raised, nothing is promised.
  abbrev pub IsAllocated : ℕ → World → Outcome AllocationResult → World → Type 0
  IsAllocated approved w (Outcome.ok d) u = Counted e campaign worker_id approved 0 no_counts w d u
  IsAllocated approved w (Outcome.raised x) u = Unit

  returned-IsAllocated :
      (approved : ℕ) (w u : World) (r : Outcome AllocationResult)
      → ((d : AllocationResult)
          → r ≡ Outcome.ok d
          → Counted e campaign worker_id approved 0 no_counts w d u)
      → IsAllocated approved w r u
  returned-IsAllocated approved w u (Outcome.ok d) h = h d refl
  returned-IsAllocated approved w u (Outcome.raised x) h = tt

  -- If `allocate` returns, it has made rounds of one reservation each, with one call to the pair
  -- that is reserved, if one is: at most as many rounds as were approved, and fewer only if the
  -- last three or more found nobody to reserve. It counts all the rounds as attempts, and each
  -- round once by its outcome: as a call that was placed, one that was not, or a contention.
  pub allocate-IsAllocated :
      (approved : ℕ) (w : World)
      → IsAllocated approved w
          (allocate e campaign approved worker_id w).0
          (allocate e campaign approved worker_id w).1
  unfolding allocate
  allocate-IsAllocated approved w =
      returned-IsAllocated approved w (allocate e campaign approved worker_id w).1
        (allocate e campaign approved worker_id w).0
        (λ d h. rounds-Counted approved no_counts 0 w d h)

  pub attempts_bounded :
      (approved : ℕ) (w : World) (d : AllocationResult) (u : World)
      → Counted e campaign worker_id approved 0 no_counts w d u
      → d.attempted ≤ approved
  attempts_bounded approved w d u k = omega (arith, k.attempted, k.bounded)
