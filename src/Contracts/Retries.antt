-- ===== src/Contracts/Retries.antt =====
-- A borrower that is never reached.
use smart_dialer.Base.{ap, ℕ, suc, ◌+◌, ◌*◌, ◌^◌, ◌≤◌, ◌≡◌, ◌↔◌, List, [], ◌∷◌, length, arith}
use smart_dialer.Model.{Borrower}
use smart_dialer.Model.Enums.{BorrowerStatus}
use smart_dialer.Repositories.Borrowers.{retried_borrower}
use smart_dialer.Settings.{seconds}

-- The borrower after calls that failed, at these times; the last one is the first of the list.
abbrev pub retried_at : (max_attempts base : ℕ) → List ℕ → Borrower → Borrower
unfolding retried_borrower
retried_at max_attempts base [] d = d
retried_at max_attempts base (t ∷ times) d =
    retried_borrower t max_attempts base (retried_at max_attempts base times d)

retried-count :
    (max_attempts base : ℕ) (times : List ℕ) (d : Borrower)
    → (retried_at max_attempts base times d).attempt_count ≡ d.attempt_count + length times
unfolding retried_borrower
retried-count max_attempts base [] d = omega arith
retried-count max_attempts base (t ∷ times) d =
    omega (arith, retried-count max_attempts base times d)

-- After n failed calls and one at time t, the borrower is exhausted exactly if its attempts, these
-- calls included, have reached the maximum, and it is eligible again after t and the base, doubled
-- once for each attempt before the last.
pub retried-exhausted :
    (max_attempts base t : ℕ) (times : List ℕ) (d : Borrower)
    → ((retried_at max_attempts base (t ∷ times) d).status ≡ BorrowerStatus.exhausted
        ↔ max_attempts ≤ d.attempt_count + suc (length times))
      × ((retried_at max_attempts base (t ∷ times) d).next_eligible_at
          ≡ t + seconds (base * 2 ^ (d.attempt_count + length times)))
unfolding retried_borrower
retried-exhausted max_attempts base t times d = (
  ground (arith, retried-count max_attempts base times d),
  ap (λ n. t + seconds (base * 2 ^ n)) (omega (arith, retried-count max_attempts base times d)),
)
