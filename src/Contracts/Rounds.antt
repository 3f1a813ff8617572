-- ===== src/Contracts/Rounds.antt =====
-- The rounds of `CallAllocator.allocate`: what one round does, and how rounds are counted.
use smart_dialer.Base.{
  ℕ, ◌+◌, ◌≤◌, ◌≡◌, refl, sym, ◌∙◌, ap, Bool, true, false, Option, none, some, List, [], ◌∷◌,
  length, count_if, ◌⊎◌, arith,
}
use mathlib.Core.Path.{subst}
use smart_dialer.Errors.{Outcome}
use smart_dialer.Model.{Campaign}
use smart_dialer.Services.CallAllocator.{
  AllocationResult, max_consecutive_contentions, reserve_outcome, dial, dial_outcome, dial_pair,
  allocate_round,
}
use smart_dialer.Services.Reservation.{ReservationPair, reserve_pair}
use smart_dialer.World.{World, Env, Action, ◌>>=◌, pure, attempt}
use smart_dialer.World.Returns.{continue-Returned}

-- the outcomes of a round: no pair was reserved, or the call was placed, or it was not
abbrev pub is_contended : Option Bool → Bool
is_contended none = true
is_contended (some _) = false

abbrev pub is_placed : Option Bool → Bool
is_placed (some true) = true
is_placed _ = false

abbrev pub is_unplaced : Option Bool → Bool
is_unplaced (some false) = true
is_unplaced _ = false

-- the contentions in a row at the end, after some before
abbrev pub trailing : ℕ → List (Option Bool) → ℕ
trailing consecutive [] = consecutive
trailing consecutive (none ∷ outcomes) = trailing (consecutive + 1) outcomes
trailing consecutive (some _ ∷ outcomes) = trailing 0 outcomes

-- nothing counted yet
abbrev pub no_counts : AllocationResult
no_counts = record { attempted = 0; allocated = 0; failed = 0; contended = 0 }

module _ {F : Type 0} (e : Env F) (campaign : Campaign) (worker_id : ℕ) where
  abbrev pub reserving : Action (Option ReservationPair)
  reserving = attempt (reserve_pair e campaign.id worker_id) (reserve_outcome e)

  abbrev pub dialling : ReservationPair → Action Bool
  dialling pair = attempt (dial e campaign pair) (dial_outcome e pair)

  -- One reservation, and one call to the pair that it reserves.
  pub data Round (w : World) (outcome : Option Bool) (v : World) : Type 0 where
    contended :
        (reserving w).0 ≡ Outcome.ok none → outcome ≡ none → v ≡ (reserving w).1 → Round w outcome v
    dialled :
        (pair : ReservationPair) (placed : Bool)
        → (reserving w).0 ≡ Outcome.ok (some pair)
        → (dialling pair (reserving w).1).0 ≡ Outcome.ok placed
        → outcome ≡ some placed
        → v ≡ (dialling pair (reserving w).1).1
        → Round w outcome v

  pub data Rounds : World → List (Option Bool) → World → Type 0 where
    here : {w : World} → Rounds w [] w
    next :
        {w v u : World} {outcome : Option Bool} {outcomes : List (Option Bool)}
        → Round w outcome v
        → Rounds v outcomes u
        → Rounds w (outcome ∷ outcomes) u

  -- The rounds that led from one count to another: at most so many, and fewer only after the last
  -- ones were contended in a row; each is counted once, by its outcome.
  pub record Counted (rounds consecutive : ℕ) (c : AllocationResult) (w : World)
      (d : AllocationResult) (u : World) : Type 0 where
    pub outcomes : List (Option Bool)
    pub run : Rounds w outcomes u
    pub attempted : d.attempted ≡ c.attempted + length outcomes
    pub allocated : d.allocated ≡ c.allocated + count_if is_placed outcomes
    pub failed : d.failed ≡ c.failed + count_if is_unplaced outcomes
    pub contentions : d.contended ≡ c.contended + count_if is_contended outcomes
    pub bounded : length outcomes ≤ rounds
    pub stopped :
        (length outcomes ≡ rounds) ⊎ (max_consecutive_contentions ≤ trailing consecutive outcomes)

  dial_pair-Round :
      (w : World) (outcome : Option Bool) (pair : Option ReservationPair)
      → (reserving w).0 ≡ Outcome.ok pair
      → (dial_pair e campaign pair (reserving w).1).0 ≡ Outcome.ok outcome
      → Round w outcome (dial_pair e campaign pair (reserving w).1).1
  unfolding dial_pair ◌>>=◌ pure
  dial_pair-Round w outcome none got h = Round.contended got (ground (arith, h)) refl
  dial_pair-Round w outcome (some pair) got h =
      let called = dialling pair (reserving w).1 in
      let r = continue-Returned called.0 called.1 (λ placed. pure (some placed)) outcome h in
      let same : Outcome.ok (some r.value) ≡ Outcome.ok outcome = ap (λ x. x.0) (sym r.rest) ∙ h in
      Round.dialled pair r.value got r.first (ground (arith, same)) (ap (λ x. x.1) r.rest)

  pub allocate_round-Round :
      (w : World) (outcome : Option Bool)
      → (allocate_round e campaign worker_id w).0 ≡ Outcome.ok outcome
      → Round w outcome (allocate_round e campaign worker_id w).1
  unfolding allocate_round ◌>>=◌
  allocate_round-Round w outcome h =
      let got = reserving w in
      let r = continue-Returned got.0 got.1 (dial_pair e campaign) outcome h in
      subst (λ out. Round w outcome out.1) (sym r.rest)
        (dial_pair-Round w outcome r.value r.first (ap (λ x. x.0) (sym r.rest) ∙ h))
