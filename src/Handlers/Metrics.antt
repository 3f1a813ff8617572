-- ===== src/Handlers/Metrics.antt =====
-- Metrics are collected, and events are delivered.
use smart_dialer.Lifecycle.Moves.{retry_policy}
use smart_dialer.Lifecycle.Steps.{RetryPolicy}
use smart_dialer.Base.{ℕ, ◌+◌, List, [], ◌∷◌}
use smart_dialer.Model.{Campaign}
use smart_dialer.Metrics.Campaign.{count_by_verdict, collect, sample_campaigns, sample_once}
use smart_dialer.Repositories.Agents.{find_for_campaign}
use smart_dialer.Repositories.Campaigns.{find_running}
use smart_dialer.Repositories.Events.{ProviderEvent}
use smart_dialer.Services.Delivery.{on_event}
use smart_dialer.Services.ProviderHealth.{record_event_received}
use smart_dialer.Handlers.Events.{Moves-process_event}
use smart_dialer.Handlers.Snapshot.{
  Moves-agents_by_state, Moves-calls_by_state, Moves-outcome_counts_between,
  Moves-average_talk_time_seconds, Moves-average_setup_time_ms,
}
use smart_dialer.World.{Env}
use smart_dialer.Lifecycle.Moves.{
  IsEnv, Moves, moves_rules, Moves-pure, Moves-gets, Moves-bind, Moves-now, Moves-query, Moves-ask,
  Moves-set_peak_concurrent,
}

module _ {F : Type 0} (e : Env F) (law : IsEnv e) where
  abbrev k : RetryPolicy
  k = retry_policy e

  Moves-collect : (campaign : Campaign) → Moves k (collect e campaign)
  unfolding collect find_for_campaign count_by_verdict
  Moves-collect campaign = Moves-bind _ _ (Moves-now e law) λ t.
      Moves-bind _ _ (Moves-calls_by_state e law _) λ calls.
        Moves-bind _ _ (Moves-agents_by_state e law _) λ counts.
          Moves-bind _ _ (Moves-query e law _) λ agents. Moves-bind _ _ (Moves-now e law) λ moment.
            Moves-bind _ _ (Moves-outcome_counts_between e law _ _ _) λ outcomes.
              Moves-bind _ _ (Moves-gets _) λ peaks.
                Moves-bind _ _ (Moves-set_peak_concurrent _) λ _.
                  Moves-bind _ _ (Moves-bind _ _ (Moves-ask e law _) (λ _. Moves-pure _))
                    λ verdicts. Moves-bind _ _ (Moves-average_talk_time_seconds e law _) λ talk.
                      Moves-bind _ _ (Moves-average_setup_time_ms e law _)
                        λ setup. Moves-bind _ _ (Moves-gets _) λ counters. Moves-pure _

  Moves-sample_campaigns :
      (sampled : ℕ) (campaigns : List Campaign) → Moves k (sample_campaigns e sampled campaigns)
  unfolding sample_campaigns
  Moves-sample_campaigns sampled [] = Moves-pure _
  Moves-sample_campaigns sampled (campaign ∷ campaigns) =
      Moves-bind _ _ (Moves-collect campaign) λ metrics.
        Moves-bind _ _ (Moves-ask e law _) λ _. Moves-sample_campaigns (sampled + 1) campaigns

  pub Moves-sample_once : Moves k (sample_once e)
  unfolding sample_once find_running
  Moves-sample_once =
      Moves-bind _ _ (Moves-query e law _) (λ campaigns. Moves-sample_campaigns _ campaigns)

  pub Moves-on_event : (event : ProviderEvent) → Moves k (on_event e event)
  unfolding on_event record_event_received
  Moves-on_event event =
      Moves-bind _ _ (search moves_rules)
        (λ _. Moves-bind _ _ (Moves-process_event e law event) (λ _. Moves-pure _))
