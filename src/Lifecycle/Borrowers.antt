-- ===== src/Lifecycle/Borrowers.antt =====
-- The operations of app/repositories/borrower_repo.py stay within the specification.
use smart_dialer.Lifecycle.Moves.{retry_policy}
use smart_dialer.Lifecycle.Steps.{RetryPolicy}
use smart_dialer.Base.{ℕ, ◌≡◌, true, List, [], ◌∷◌, &&_left, &&_right, All, All-map, arith}
use smart_dialer.Model.{Borrower}
use smart_dialer.Model.Enums.{BorrowerStatus, same_status→≡}
use smart_dialer.World.{Env}
use smart_dialer.Repositories.Borrowers.{
  BorrowerReleaseOutcome, is_releasable, reserved_borrower, released_borrower, reclaimed_borrower,
  try_reserve_borrower, find_claimable_borrowers, release_borrower, reclaim_borrower,
  reclaim_candidates, reclaim_expired_borrower_leases,
}
use smart_dialer.Lifecycle.Steps.{BorrowerStep}
use smart_dialer.Lifecycle.Moves.{
  IsEnv, Moves, Moves-pure, Moves-if, Moves-bind, Moves-bind_where, query-ok, Moves-now,
  Moves-query, Moves-write_borrowers,
}

reserved_borrower-Step :
    (k : RetryPolicy) (worker ttl t : ℕ) (d : Borrower)
    → d.status ≡ BorrowerStatus.pending
    → BorrowerStep k d (reserved_borrower worker ttl t d)
unfolding reserved_borrower
reserved_borrower-Step k worker ttl t d pending = ground arith

released_borrower-Step :
    (k : RetryPolicy) (t : ℕ) (outcome : BorrowerReleaseOutcome) (d : Borrower)
    → is_releasable d.status ≡ true
    → BorrowerStep k d (released_borrower outcome t k.max_attempts k.backoff_base_seconds d)
unfolding released_borrower
released_borrower-Step k t outcome d held = ground arith

reclaimed_borrower-Step :
    (k : RetryPolicy) (t : ℕ) (d : Borrower)
    → is_releasable d.status ≡ true
    → BorrowerStep k d (reclaimed_borrower t d)
unfolding reclaimed_borrower
reclaimed_borrower-Step k t d held = ground arith

module _ {F : Type 0} (e : Env F) (law : IsEnv e) where
  abbrev k : RetryPolicy
  k = retry_policy e

  pub Moves-try_reserve_borrower :
      (campaign_id borrower_id worker_id ttl : ℕ)
      → Moves k (try_reserve_borrower e campaign_id borrower_id worker_id ttl)
  unfolding try_reserve_borrower
  Moves-try_reserve_borrower campaign_id borrower_id worker_id ttl =
      Moves-bind _ _ (Moves-now e law) λ t. Moves-write_borrowers e law _ _ λ d fit.
        reserved_borrower-Step k worker_id ttl t d
          (same_status→≡ _ _ (&&_left _ _ (&&_right _ _ fit)))

  pub Moves-find_claimable_borrowers :
      (campaign_id needed : ℕ) → Moves k (find_claimable_borrowers e campaign_id needed)
  unfolding find_claimable_borrowers
  Moves-find_claimable_borrowers campaign_id needed =
      Moves-if _ _ _ (Moves-pure _) (Moves-bind _ _ (Moves-now e law) (λ t. Moves-query e law _))

  pub Moves-release_borrower :
      (borrower_id worker_id : ℕ) (outcome : BorrowerReleaseOutcome)
      → Moves k (
          release_borrower e borrower_id worker_id outcome e.settings.max_call_attempts
            e.settings.retry_backoff_base_seconds)
  unfolding release_borrower
  Moves-release_borrower borrower_id worker_id outcome = Moves-bind _ _ (Moves-now e law) λ t.
      Moves-write_borrowers e law _ _
        λ d fit. released_borrower-Step k t outcome d (&&_right _ _ fit)

  Moves-reclaim_borrower :
      (t : ℕ) (candidate : Borrower)
      → is_releasable candidate.status ≡ true
      → Moves k (reclaim_borrower e t candidate)
  unfolding reclaim_borrower
  Moves-reclaim_borrower t candidate held = Moves-write_borrowers e law _ _ λ d fit.
      let same : d.status ≡ candidate.status =
        same_status→≡ d.status candidate.status (&&_right _ _ (&&_left _ _ (&&_left _ _ fit))) in
      reclaimed_borrower-Step k t d (rw same held)

  Moves-reclaim_candidates :
      (t : ℕ) (candidates : List Borrower)
      → All (λ d. is_releasable d.status ≡ true) candidates
      → Moves k (reclaim_candidates e t candidates)
  unfolding reclaim_candidates
  Moves-reclaim_candidates t [] held = Moves-pure _
  Moves-reclaim_candidates t (candidate ∷ rest) held =
      Moves-bind _ _ (Moves-reclaim_borrower t candidate held.0) λ document.
        Moves-bind _ _ (Moves-reclaim_candidates t rest held.1) λ reclaimed. Moves-pure _

  pub Moves-reclaim_expired_borrower_leases :
      (t limit : ℕ) → Moves k (reclaim_expired_borrower_leases e t limit)
  unfolding reclaim_expired_borrower_leases
  Moves-reclaim_expired_borrower_leases t limit =
      Moves-bind_where (All (λ d. is_releasable d.status ≡ true)) _ _ (Moves-query e law _)
        (λ w found h.
          All-map _ _ (λ d fit. &&_left _ _ (&&_left _ _ fit.1)) found
            (law.borrowers_law.find_found _ _ _ _ _ found (query-ok e _ w found h)))
        (λ candidates held. Moves-reclaim_candidates t candidates held)
