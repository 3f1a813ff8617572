-- ===== src/Contracts/Reservations.antt =====
-- A reservation and its release.
use smart_dialer.Base.{ℕ, ◌+◌, ◌-◌, ◌≡◌, refl, none}
use smart_dialer.Model.{Agent, Borrower}
use smart_dialer.Model.Enums.{AgentState, BorrowerStatus}
use smart_dialer.StateMachines.Agent.{TransitionActor, allowed_sources}
use smart_dialer.Repositories.Agents.{reserved_agent, released_agent}
use smart_dialer.Repositories.Borrowers.{
  BorrowerReleaseOutcome, reserved_borrower, released_borrower,
}

-- nobody holds the agent, and it has no call
pub record IsFreeAgent (d : Agent) : Type 0 where
  pub available : d.state ≡ AgentState.available
  pub no_worker : d.reserved_by ≡ none
  pub no_reservation : d.reserved_at ≡ none
  pub no_lease : d.lease_expires_at ≡ none
  pub no_call : d.current_call_id ≡ none

pub record IsFreeBorrower (d : Borrower) : Type 0 where
  pub pending : d.status ≡ BorrowerStatus.pending
  pub no_worker : d.reserved_by ≡ none
  pub no_reservation : d.reserved_at ≡ none
  pub no_lease : d.lease_expires_at ≡ none

-- A free agent and a free borrower that are reserved, and released again without a call, are as
-- they were, but that their versions are up by two, and that the agent has changed at the time of
-- the release and has the time of the reservation in its busy time.
pub released-reserved :
    (agent : Agent) (borrower : Borrower) (worker ttl t u max_attempts base : ℕ)
    → IsFreeAgent agent
    → IsFreeBorrower borrower
    → (released_agent
          (allowed_sources AgentState.available TransitionActor.allocator)
          AgentState.available
          u
          (reserved_agent worker ttl t agent)
        ≡ record agent {
          state_version = agent.state_version + 1 + 1;
          state_changed_at = u;
          busy_time_ms = agent.busy_time_ms + (u - t);
        })
      × (released_borrower BorrowerReleaseOutcome.released u max_attempts base
            (reserved_borrower worker ttl t borrower)
          ≡ record borrower { state_version = borrower.state_version + 1 + 1 })
unfolding released_agent reserved_agent released_borrower reserved_borrower allowed_sources
released-reserved agent borrower worker ttl t u max_attempts base a b = (
  rw (a.available, a.no_worker, a.no_reservation, a.no_lease, a.no_call) refl,
  rw (b.pending, b.no_worker, b.no_reservation, b.no_lease) refl,
)
