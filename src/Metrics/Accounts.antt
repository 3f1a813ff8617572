-- ===== src/Metrics/Accounts.antt =====
-- No agent is talking or wrapping up for longer than it is there.
use smart_dialer.Base.{
  ℕ, ◌+◌, ◌≤◌, ◌≡◌, refl, ◌==◌, ==→≡, true, List, [], ◌∷◌, All, All-map, All-middle, arith,
}
use smart_dialer.Errors.{Outcome}
use smart_dialer.Store.{Stored}
use smart_dialer.Repositories.Agents.{find_for_campaign}
use smart_dialer.World.{World, Env, arrive}
use smart_dialer.Lifecycle.Moves.{IsEnv, query-ok}
use smart_dialer.Lifecycle.History.Agents.{agents-IsAccounted}
use smart_dialer.Model.{Agent}
use smart_dialer.Model.Enums.{AgentState}
use smart_dialer.Lifecycle.Steps.{IsAccounted}
use smart_dialer.Metrics.Utilization.{
  elapsed_in_current_state_ms, live_totals, sum_totals, live_connected, live_wrap_up,
  campaign_utilization,
}
use smart_dialer.Settings.{Floats}

-- the elapsed time goes to one of the accounts at most
live_share :
    (s : AgentState) (connected wrap_up busy available elapsed : ℕ)
    → connected + wrap_up ≤ busy
    → live_connected s connected elapsed + live_wrap_up s wrap_up elapsed
      ≤ busy + available + elapsed
live_share AgentState.connected connected wrap_up busy available elapsed h = omega (arith, h)
live_share AgentState.wrap_up connected wrap_up busy available elapsed h = omega (arith, h)
live_share _ connected wrap_up busy available elapsed h = ground (arith, h)

live_totals-bounded :
    (agent : Agent) (t : ℕ)
    → IsAccounted agent
    → (live_totals agent t).productive ≤ (live_totals agent t).counted
unfolding live_totals
live_totals-bounded agent t h =
    live_share agent.state agent.connected_time_ms agent.wrap_up_time_ms agent.busy_time_ms
      agent.available_time_ms (elapsed_in_current_state_ms agent t) h

sum_totals-bounded :
    (t : ℕ) (agents : List Agent)
    → All IsAccounted agents
    → (sum_totals t agents).productive ≤ (sum_totals t agents).counted
unfolding sum_totals
sum_totals-bounded t [] h = omega arith
sum_totals-bounded t (agent ∷ agents) h =
    omega (arith, live_totals-bounded agent t h.0, sum_totals-bounded t agents h.1)

sum_totals-connected :
    (t : ℕ) (agents : List Agent)
    → (sum_totals t agents).connected ≤ (sum_totals t agents).productive
unfolding sum_totals live_totals
sum_totals-connected t [] = omega arith
sum_totals-connected t (agent ∷ agents) = omega (arith, sum_totals-connected t agents)

-- The time in calls is part of the productive time, and that of the counted time, so neither share
-- of a campaign is above one, if each agent's accounts are in order.
utilization_bounded :
    {F : Type 0} (floats : Floats F) (agents : List Agent) (t : ℕ)
    → All IsAccounted agents
    → ((campaign_utilization floats agents t).connected_time_ms
        ≤ (campaign_utilization floats agents t).productive_time_ms)
      × ((campaign_utilization floats agents t).productive_time_ms
          ≤ (campaign_utilization floats agents t).counted_time_ms)
unfolding campaign_utilization
utilization_bounded floats agents t h =
    (sum_totals-connected t agents, sum_totals-bounded t agents h)

-- What the agents that a query found promise. If something is raised, nothing is promised.
abbrev pub IsUtilized :
    {F : Type 0} → Floats F → (campaign_id now : ℕ) → Outcome (List Agent) → Type 0
IsUtilized floats campaign_id t (Outcome.ok agents) =
    All (λ (a : Agent). a.campaign_id ≡ campaign_id) agents
    × ((campaign_utilization floats agents t).connected_time_ms
        ≤ (campaign_utilization floats agents t).productive_time_ms)
    × ((campaign_utilization floats agents t).productive_time_ms
        ≤ (campaign_utilization floats agents t).counted_time_ms)
IsUtilized floats campaign_id t (Outcome.raised x) = Unit

answer-IsUtilized :
    {F : Type 0} (floats : Floats F) (campaign_id t : ℕ) (docs : List Agent)
    (r : Outcome (List Agent))
    → All IsAccounted docs
    → ((agents : List Agent)
        → r ≡ Outcome.ok agents
        → All (λ d. Stored docs d × ((d.campaign_id == campaign_id) ≡ true)) agents)
    → IsUtilized floats campaign_id t r
answer-IsUtilized floats campaign_id t docs (Outcome.ok agents) accounted found =
    let held = found agents refl in
    let bounded = utilization_bounded floats agents t (
      All-map _ _
        (λ d (s : Stored docs d × ((d.campaign_id == campaign_id) ≡ true)).
          All-middle IsAccounted s.0.left d s.0.right (rw (← s.0.split) accounted))
        agents held) in
    (
      All-map _ _
          (λ d (s : Stored docs d × ((d.campaign_id == campaign_id) ≡ true)).
            ==→≡ d.campaign_id campaign_id s.1)
          agents held,
      bounded.0,
      bounded.1,
    )
answer-IsUtilized floats campaign_id t docs (Outcome.raised x) accounted found = tt

-- The agents that are found for a campaign are its own, and their utilization is in order.
pub find_for_campaign-IsUtilized :
    {F : Type 0} (e : Env F) (law : IsEnv e) (campaign_id limit t : ℕ) (w : World)
    → All IsAccounted w.db.agents
    → IsUtilized e.floats campaign_id t (find_for_campaign e campaign_id limit w).0
unfolding find_for_campaign
find_for_campaign-IsUtilized e law campaign_id limit t w accounted =
    answer-IsUtilized e.floats campaign_id t (arrive e w).agents _
      (agents-IsAccounted (law.others_law w.moment w.db) accounted)
      (λ agents h. law.agents_law.find_found _ _ _ _ _ agents (query-ok e _ w agents h))
