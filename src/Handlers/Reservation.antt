-- ===== src/Handlers/Reservation.antt =====
-- Reserving and releasing a pair: app/services/reservation_service.py.
use smart_dialer.Lifecycle.Moves.{retry_policy}
use smart_dialer.Lifecycle.Steps.{RetryPolicy}
use smart_dialer.Base.{ℕ, Option, none, some, List, [], ◌∷◌, refl}
use smart_dialer.Errors.{Error, Outcome}
use smart_dialer.Model.{Agent, Borrower}
use smart_dialer.World.{Action, Env}
use smart_dialer.Repositories.Borrowers.{BorrowerReleaseOutcome}
use smart_dialer.Services.Reservation.{
  ReservationPair, release_claimed_agent, won_agent, claim_first_agent, claim_agent, won_borrower,
  claim_first_borrower, claim_borrower, pair_with, reserve_with, reserve_pair, release_pair,
}
use smart_dialer.Lifecycle.Agents.{
  Moves-try_reserve_agent, Moves-find_claimable_agents, Moves-release_agent,
}
use smart_dialer.Lifecycle.Borrowers.{
  Moves-try_reserve_borrower, Moves-find_claimable_borrowers, Moves-release_borrower,
}
use smart_dialer.Lifecycle.Moves.{IsEnv, Moves, moves_rules, Moves-bind}

module _ {F : Type 0} (e : Env F) (law : IsEnv e) where
  abbrev k : RetryPolicy
  k = retry_policy e

  Moves-release_claimed_agent :
      (agent_id worker_id : ℕ) → Moves k (release_claimed_agent e agent_id worker_id)
  unfolding release_claimed_agent
  Moves-release_claimed_agent agent_id worker_id = Moves-release_agent e law _ _ _ _ refl

  Moves-won_agent :
      (o : Option Agent) (rest : Action (Option Agent))
      → Moves k rest
      → Moves k (won_agent e o rest)
  unfolding won_agent
  Moves-won_agent none rest h = search moves_rules
  Moves-won_agent (some agent) rest h = search moves_rules

  Moves-claim_first_agent :
      (campaign_id worker_id : ℕ) (candidates : List Agent)
      → Moves k (claim_first_agent e campaign_id worker_id candidates)
  unfolding claim_first_agent
  Moves-claim_first_agent campaign_id worker_id [] = search moves_rules
  Moves-claim_first_agent campaign_id worker_id (candidate ∷ rest) =
      Moves-bind _ _ (Moves-try_reserve_agent e law _ _ _ _)
        λ agent. Moves-won_agent agent _ (Moves-claim_first_agent campaign_id worker_id rest)

  Moves-claim_agent : (campaign_id worker_id : ℕ) → Moves k (claim_agent e campaign_id worker_id)
  unfolding claim_agent
  Moves-claim_agent campaign_id worker_id =
      search (moves_rules, Moves-find_claimable_agents e law, Moves-claim_first_agent)

  Moves-won_borrower :
      (o : Option Borrower) (rest : Action (Option Borrower))
      → Moves k rest
      → Moves k (won_borrower e o rest)
  unfolding won_borrower
  Moves-won_borrower none rest h = search moves_rules
  Moves-won_borrower (some borrower) rest h = search moves_rules

  Moves-claim_first_borrower :
      (campaign_id worker_id : ℕ) (candidates : List Borrower)
      → Moves k (claim_first_borrower e campaign_id worker_id candidates)
  unfolding claim_first_borrower
  Moves-claim_first_borrower campaign_id worker_id [] = search moves_rules
  Moves-claim_first_borrower campaign_id worker_id (candidate ∷ rest) =
      Moves-bind _ _ (Moves-try_reserve_borrower e law _ _ _ _) λ borrower.
        Moves-won_borrower borrower _ (Moves-claim_first_borrower campaign_id worker_id rest)

  Moves-claim_borrower :
      (campaign_id worker_id : ℕ) → Moves k (claim_borrower e campaign_id worker_id)
  unfolding claim_borrower
  Moves-claim_borrower campaign_id worker_id =
      search (moves_rules, Moves-find_claimable_borrowers e law, Moves-claim_first_borrower)

  Moves-pair_with :
      (campaign_id worker_id : ℕ) (agent : Agent) (o : Outcome (Option Borrower))
      → Moves k (pair_with e campaign_id worker_id agent o)
  unfolding pair_with
  Moves-pair_with campaign_id worker_id agent (Outcome.raised Error.mongo_error) =
      search (moves_rules, Moves-release_claimed_agent)
  Moves-pair_with campaign_id worker_id agent (Outcome.raised Error.duplicate_key_error) =
      search (moves_rules, Moves-release_claimed_agent)
  Moves-pair_with campaign_id worker_id agent (Outcome.raised _) = search moves_rules
  Moves-pair_with campaign_id worker_id agent (Outcome.ok none) =
      search (moves_rules, Moves-release_claimed_agent)
  Moves-pair_with campaign_id worker_id agent (Outcome.ok (some borrower)) = search moves_rules

  Moves-reserve_with :
      (campaign_id worker_id : ℕ) (o : Option Agent)
      → Moves k (reserve_with e campaign_id worker_id o)
  unfolding reserve_with
  Moves-reserve_with campaign_id worker_id none = search moves_rules
  Moves-reserve_with campaign_id worker_id (some agent) =
      search (moves_rules, Moves-claim_borrower, Moves-pair_with)

  pub Moves-reserve_pair :
      (campaign_id worker_id : ℕ) → Moves k (reserve_pair e campaign_id worker_id)
  unfolding reserve_pair
  Moves-reserve_pair campaign_id worker_id =
      search (moves_rules, Moves-claim_agent, Moves-reserve_with)

  pub Moves-release_pair :
      (pair : ReservationPair) (outcome : BorrowerReleaseOutcome)
      → Moves k (release_pair e pair outcome)
  unfolding release_pair
  Moves-release_pair pair outcome =
      search (moves_rules, Moves-release_claimed_agent, Moves-release_borrower e law)
