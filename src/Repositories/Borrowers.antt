-- ===== src/Repositories/Borrowers.antt =====
-- app/repositories/borrower_repo.py
use smart_dialer.Base.{
  ℕ, ◌+◌, ◌-◌, ◌*◌, ◌^◌, Bool, true, false, Option, none, some, List, [], ◌∷◌, ◌==◌, ◌&&◌, leb,
  before, is_some, holds_value, if◌then◌else◌,
}
use smart_dialer.Model.{Borrower}
use smart_dialer.Model.Enums.{BorrowerStatus, same_status}
use smart_dialer.Settings.{seconds}
use smart_dialer.Store.{unsorted, ascending}
use smart_dialer.World.{Action, Env, ◌>>=◌, pure, now, query, write_borrowers}
use smart_dialer.Repositories.Leases.{candidate_window}

pub data BorrowerReleaseOutcome : Type 0 where
  released retry contacted : BorrowerReleaseOutcome

-- RELEASABLE_STATUSES
abbrev pub is_releasable : BorrowerStatus → Bool
is_releasable BorrowerStatus.reserved = true
is_releasable BorrowerStatus.in_call = true
is_releasable _ = false

abbrev pub clear_lease : Borrower → Borrower
clear_lease d = record d { reserved_by = none; reserved_at = none; lease_expires_at = none }

-- the update of `try_reserve_borrower`
unfoldable pub reserved_borrower : ℕ → ℕ → ℕ → Borrower → Borrower
reserved_borrower worker ttl t d = record d {
  status = BorrowerStatus.reserved;
  reserved_by = some worker;
  reserved_at = some t;
  lease_expires_at = some (t + seconds ttl);
  state_version = d.state_version + 1;
}

-- `_build_retry_update`: the second stage of the pipeline reads the count that the first wrote
unfoldable pub retried_borrower : ℕ → ℕ → ℕ → Borrower → Borrower
retried_borrower t max_attempts backoff_base_seconds d =
    let first = record (clear_lease d) {
      attempt_count = d.attempt_count + 1;
      last_attempt_at = some t;
      state_version = d.state_version + 1;
    } in
    record first {
      status =
          if leb max_attempts first.attempt_count
          then BorrowerStatus.exhausted
          else BorrowerStatus.pending;
      next_eligible_at = t + seconds (backoff_base_seconds * 2 ^ (first.attempt_count - 1));
    }

-- the update of `release_borrower`
unfoldable pub released_borrower : BorrowerReleaseOutcome → ℕ → ℕ → ℕ → Borrower → Borrower
unfolding retried_borrower
released_borrower BorrowerReleaseOutcome.released t max_attempts base d = record (clear_lease d) {
  status = BorrowerStatus.pending;
  state_version = d.state_version + 1;
}
released_borrower BorrowerReleaseOutcome.contacted t max_attempts base d = record (clear_lease d) {
  status = BorrowerStatus.contacted;
  last_attempt_at = some t;
  state_version = d.state_version + 1;
  attempt_count = d.attempt_count + 1;
}
released_borrower BorrowerReleaseOutcome.retry t max_attempts base d =
    retried_borrower t max_attempts base d

-- the update of `reclaim_expired_borrower_leases`
unfoldable pub reclaimed_borrower : ℕ → Borrower → Borrower
reclaimed_borrower t d = record (clear_lease d) {
  status = BorrowerStatus.pending;
  next_eligible_at = t;
  state_version = d.state_version + 1;
}

-- the filter that `find_claimable_borrowers` and `try_reserve_borrower` share
abbrev pub is_eligible : ℕ → Borrower → Bool
is_eligible t d = same_status d.status BorrowerStatus.pending && leb d.next_eligible_at t

module _ {F : Type 0} (e : Env F) where
  unfoldable pub try_reserve_borrower : ℕ → ℕ → ℕ → ℕ → Action (Option Borrower)
  try_reserve_borrower campaign_id borrower_id worker_id ttl = do
    t ← now e
    write_borrowers e λ n.
        e.borrowers_db.find_one_and_update n
          (λ d. d.id == borrower_id && d.campaign_id == campaign_id && is_eligible t d)
          (reserved_borrower worker_id ttl t)

  unfoldable pub find_claimable_borrowers : ℕ → ℕ → Action (List Borrower)
  find_claimable_borrowers campaign_id needed = if candidate_window needed == 0 then pure [] else do
    t ← now e
    query e λ n db.
        e.borrowers_db.find n (λ d. d.campaign_id == campaign_id && is_eligible t d)
          (ascending (λ d. d.next_eligible_at)) (candidate_window needed) db.borrowers

  unfoldable pub release_borrower :
      ℕ → ℕ → BorrowerReleaseOutcome → ℕ → ℕ → Action (Option Borrower)
  release_borrower borrower_id worker_id outcome max_attempts backoff_base_seconds = do
    t ← now e
    write_borrowers e λ n.
        e.borrowers_db.find_one_and_update n
          (λ d.
            d.id == borrower_id && holds_value d.reserved_by worker_id && is_releasable d.status)
          (released_borrower outcome t max_attempts backoff_base_seconds)

  -- the update of one candidate
  unfoldable pub reclaim_borrower : ℕ → Borrower → Action (Option Borrower)
  reclaim_borrower t candidate = write_borrowers e λ n.
      e.borrowers_db.find_one_and_update n
        (λ d.
          d.id == candidate.id
          && same_status d.status candidate.status
          && d.state_version == candidate.state_version
          && before d.lease_expires_at t)
        (reclaimed_borrower t)

  -- the loop over the candidates; it collects those that it reclaimed
  unfoldable pub reclaim_candidates : ℕ → List Borrower → Action (List Borrower)
  unfolding reclaim_borrower
  reclaim_candidates t [] = pure []
  reclaim_candidates t (candidate ∷ rest) = do
    document ← reclaim_borrower t candidate
    reclaimed ← reclaim_candidates t rest
    pure (elim document [ none ↦ reclaimed | some d ↦ d ∷ reclaimed ])

  unfoldable pub reclaim_expired_borrower_leases : ℕ → ℕ → Action (List Borrower)
  unfolding reclaim_candidates
  reclaim_expired_borrower_leases t limit = do
    candidates ← query e λ n db.
        e.borrowers_db.find n
          (λ d. is_releasable d.status && is_some d.reserved_by && before d.lease_expires_at t)
          unsorted limit db.borrowers
    reclaim_candidates t candidates
