-- ===== src/Handlers/Snapshot.antt =====
-- The snapshot that a tick is computed from.
use smart_dialer.Lifecycle.Moves.{retry_policy}
use smart_dialer.Lifecycle.Steps.{RetryPolicy}
use smart_dialer.Base.{ℕ, Bool, true, false}
use smart_dialer.Model.{Campaign}
use smart_dialer.Repositories.Agents.{
  count_by_state as agents_by_state, count_connected_longer_than,
}
use smart_dialer.Repositories.Calls.Reports.{
  count_by_state as calls_by_state, outcome_counts_between, average_talk_time_seconds,
  average_setup_time_ms,
}
use smart_dialer.Services.ProviderHealth.{health_factor}
use smart_dialer.Pacing.Snapshot.{long_connected_agents, build_snapshot}
use smart_dialer.Handlers.Gate.{Moves-get_health}
use smart_dialer.World.{Env}
use smart_dialer.Lifecycle.Moves.{
  IsEnv, Moves, Moves-pure, Moves-gets, Moves-bind, Moves-now, Moves-query,
  Moves-set_snapshot_available,
}

module _ {F : Type 0} (e : Env F) (law : IsEnv e) where
  abbrev k : RetryPolicy
  k = retry_policy e

  pub Moves-agents_by_state : (campaign_id : ℕ) → Moves k (agents_by_state e campaign_id)
  unfolding agents_by_state
  Moves-agents_by_state campaign_id = Moves-bind _ _ (Moves-query e law _) (λ _. Moves-pure _)

  pub Moves-calls_by_state : (campaign_id : ℕ) → Moves k (calls_by_state e campaign_id)
  unfolding calls_by_state
  Moves-calls_by_state campaign_id = Moves-bind _ _ (Moves-query e law _) (λ _. Moves-pure _)

  pub Moves-outcome_counts_between :
      (campaign_id start end : ℕ) → Moves k (outcome_counts_between e campaign_id start end)
  unfolding outcome_counts_between
  Moves-outcome_counts_between campaign_id start end =
      Moves-bind _ _ (Moves-query e law _) (λ _. Moves-pure _)

  pub Moves-average_talk_time_seconds :
      (campaign_id : ℕ) → Moves k (average_talk_time_seconds e campaign_id)
  unfolding average_talk_time_seconds
  Moves-average_talk_time_seconds campaign_id =
      Moves-bind _ _ (Moves-query e law _) (λ _. Moves-pure _)

  pub Moves-average_setup_time_ms :
      (campaign_id : ℕ) → Moves k (average_setup_time_ms e campaign_id)
  unfolding average_setup_time_ms
  Moves-average_setup_time_ms campaign_id = Moves-bind _ _ (Moves-query e law _) (λ _. Moves-pure _)

  Moves-long_connected_agents :
      (campaign_id : ℕ) (known : Bool) (avg_talk_time : F) (t : ℕ)
      → Moves k (long_connected_agents e campaign_id known avg_talk_time t)
  unfolding long_connected_agents count_connected_longer_than
  Moves-long_connected_agents campaign_id false avg_talk_time t = Moves-pure _
  Moves-long_connected_agents campaign_id true avg_talk_time t = Moves-query e law _

  Moves-health_factor : (provider_name : ℕ) → Moves k (health_factor e provider_name)
  unfolding health_factor
  Moves-health_factor provider_name =
      Moves-bind _ _ (Moves-get_health e law provider_name) (λ _. Moves-pure _)

  pub Moves-build_snapshot : (campaign : Campaign) → Moves k (build_snapshot e campaign)
  unfolding build_snapshot
  Moves-build_snapshot campaign = Moves-bind _ _ (Moves-now e law) λ t.
      Moves-bind _ _ (Moves-agents_by_state _) λ agents.
        Moves-bind _ _ (Moves-calls_by_state _) λ calls.
          Moves-bind _ _ (Moves-average_talk_time_seconds _) λ talk.
            Moves-bind _ _ (Moves-average_setup_time_ms _) λ setup.
              Moves-bind _ _ (Moves-outcome_counts_between _ _ _) λ recent.
                Moves-bind _ _ (Moves-outcome_counts_between _ _ _) λ previous.
                  Moves-bind _ _ (Moves-long_connected_agents _ _ _ _) λ long_connected.
                    Moves-bind _ _ (Moves-gets _) λ counts.
                      Moves-bind _ _ (Moves-set_snapshot_available _) λ _.
                        Moves-bind _ _ (Moves-get_health e law _)
                          λ health. Moves-bind _ _ (Moves-health_factor _) λ factor. Moves-pure _
