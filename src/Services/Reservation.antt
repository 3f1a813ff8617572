-- ===== src/Services/Reservation.antt =====
-- app/services/reservation_service.py
use smart_dialer.Base.{ℕ, ◌+◌, Option, none, some, List, [], ◌∷◌}
use smart_dialer.Errors.{Error, Outcome}
use smart_dialer.Model.{Agent, Borrower}
use smart_dialer.Model.Enums.{AgentState}
use smart_dialer.StateMachines.Agent.{TransitionActor}
use smart_dialer.Repositories.Agents.{try_reserve_agent, find_claimable_agents, release_agent}
use smart_dialer.Repositories.Borrowers.{
  BorrowerReleaseOutcome, try_reserve_borrower, find_claimable_borrowers, release_borrower,
}
use smart_dialer.World.{Counters, Action, Env, ◌>>=◌, ◌>>◌, pure, raise, attempt, count_event}

pub record ReservationPair : Type 0 where
  pub campaign_id : ℕ
  pub worker_id : ℕ
  pub agent : Agent
  pub borrower : Borrower

abbrev pub contention : Counters → Counters
contention c = record c { reservation_contention = c.reservation_contention + 1 }

module _ {F : Type 0} (e : Env F) where
  unfoldable pub release_claimed_agent : ℕ → ℕ → Action (Option Agent)
  release_claimed_agent agent_id worker_id =
      release_agent e agent_id worker_id AgentState.available TransitionActor.allocator

  -- the loop of `_claim_agent`; what follows a claim that failed is the rest of the loop
  unfoldable pub won_agent : Option Agent → Action (Option Agent) → Action (Option Agent)
  won_agent (some agent) rest = pure (some agent)
  won_agent none rest = do count_event contention; rest

  unfoldable pub claim_first_agent : ℕ → ℕ → List Agent → Action (Option Agent)
  unfolding won_agent
  claim_first_agent campaign_id worker_id [] = pure none
  claim_first_agent campaign_id worker_id (candidate ∷ rest) = do
    agent ←
        try_reserve_agent e campaign_id candidate.id worker_id e.settings.reservation_ttl_seconds
    won_agent agent (claim_first_agent campaign_id worker_id rest)

  unfoldable pub claim_agent : ℕ → ℕ → Action (Option Agent)
  unfolding claim_first_agent
  claim_agent campaign_id worker_id = do
    candidates ← find_claimable_agents e campaign_id 1
    claim_first_agent campaign_id worker_id candidates

  unfoldable pub won_borrower :
      Option Borrower → Action (Option Borrower) → Action (Option Borrower)
  won_borrower (some borrower) rest = pure (some borrower)
  won_borrower none rest = do count_event contention; rest

  unfoldable pub claim_first_borrower : ℕ → ℕ → List Borrower → Action (Option Borrower)
  unfolding won_borrower
  claim_first_borrower campaign_id worker_id [] = pure none
  claim_first_borrower campaign_id worker_id (candidate ∷ rest) = do
    borrower ←
        try_reserve_borrower e campaign_id candidate.id worker_id e.settings.reservation_ttl_seconds
    won_borrower borrower (claim_first_borrower campaign_id worker_id rest)

  unfoldable pub claim_borrower : ℕ → ℕ → Action (Option Borrower)
  unfolding claim_first_borrower
  claim_borrower campaign_id worker_id = do
    candidates ← find_claimable_borrowers e campaign_id 1
    claim_first_borrower campaign_id worker_id candidates

  -- `reserve_pair` after the borrower's claim has returned, or raised a PyMongoError or another
  unfoldable pub pair_with :
      ℕ → ℕ → Agent → Outcome (Option Borrower) → Action (Option ReservationPair)
  unfolding release_claimed_agent
  pair_with campaign_id worker_id agent (Outcome.raised Error.mongo_error) = do
    release_claimed_agent agent.id worker_id
    raise Error.mongo_error
  pair_with campaign_id worker_id agent (Outcome.raised Error.duplicate_key_error) = do
    release_claimed_agent agent.id worker_id
    raise Error.duplicate_key_error
  pair_with campaign_id worker_id agent (Outcome.raised x) = raise x
  pair_with campaign_id worker_id agent (Outcome.ok none) = do
    release_claimed_agent agent.id worker_id
    pure none
  pair_with campaign_id worker_id agent (Outcome.ok (some borrower)) = pure (
      some (record {
        campaign_id = campaign_id;
        worker_id = worker_id;
        agent = agent;
        borrower = borrower;
      }))

  unfoldable pub reserve_with : ℕ → ℕ → Option Agent → Action (Option ReservationPair)
  unfolding pair_with claim_borrower
  reserve_with campaign_id worker_id none = pure none
  reserve_with campaign_id worker_id (some agent) =
      attempt (claim_borrower campaign_id worker_id) (pair_with campaign_id worker_id agent)

  unfoldable pub reserve_pair : ℕ → ℕ → Action (Option ReservationPair)
  unfolding reserve_with claim_agent
  reserve_pair campaign_id worker_id = do
    agent ← claim_agent campaign_id worker_id
    reserve_with campaign_id worker_id agent

  unfoldable pub release_pair : ReservationPair → BorrowerReleaseOutcome → Action (Unit {0})
  unfolding release_claimed_agent
  release_pair pair outcome = do
    release_claimed_agent pair.agent.id pair.worker_id
    release_borrower e pair.borrower.id pair.worker_id outcome e.settings.max_call_attempts
        e.settings.retry_backoff_base_seconds
    pure tt
