-- ===== src/System/Jobs.antt =====
-- The jobs of a worker: an agent's request to app/api/routes_agents.py, an operator's to
-- app/api/routes_campaigns.py, an event that a provider sends, a pass of app/workers/dialer_worker.py
-- over the running campaigns, a pass of app/workers/recovery_worker.py, a sample of metrics, what
-- app/simulation does to agents and events, and the reservation service on its own.
use smart_dialer.Base.{ℕ, Option, List, [], ◌∷◌}
use smart_dialer.Repositories.Events.{ProviderEvent}
use smart_dialer.Repositories.Borrowers.{BorrowerReleaseOutcome}
use smart_dialer.Services.Reservation.{ReservationPair, reserve_pair, release_pair}
use smart_dialer.Workers.Dialer.{dialer_pass}
use smart_dialer.Workers.Campaigns.{
  CampaignAction, CreateCampaignRequest, create_campaign, change_status, set_mode,
}
use smart_dialer.Model.Enums.{DialingMode}
use smart_dialer.Services.Delivery.{on_event}
use smart_dialer.Metrics.Campaign.{sample_once}
use smart_dialer.Simulation.Agents.{log_everyone_in, heartbeat_round}
use smart_dialer.Simulation.Faults.{
  duplicate_event_burst, out_of_order_burst, agent_availability_drop,
}
use smart_dialer.Workers.Recovery.{run_sweeps}
use smart_dialer.Workers.WrapUp.{AgentAction, agent_action}
use smart_dialer.World.{World, Env}

pub data Job : Type 0 where
  agent_request : ℕ → AgentAction → Job
  provider_event : ProviderEvent → Job
  reserve : (campaign_id worker_id : ℕ) → Job
  release : ReservationPair → BorrowerReleaseOutcome → Job
  dial : (worker_id : ℕ) → Job
  campaign_created : CreateCampaignRequest → Job
  campaign_status : ℕ → CampaignAction → Job
  campaign_mode : ℕ → DialingMode → Job
  recover : Job
  sample_metrics : Job
  simulated_login : (campaign_id : ℕ) → Job
  simulated_heartbeats : (campaign_id : ℕ) → Job
  replay_events reverse_events : (provider_call_id : Option ℕ) → Job
  drop_agents : (campaign_id count : ℕ) → Job

module _ {F : Type 0} (e : Env F) where
  -- What a job leaves behind, whether it returned or raised.
  unfoldable pub perform : Job → World → World
  perform (agent_request agent_id action) w = (agent_action e agent_id action w).1
  perform (provider_event event) w = (on_event e event w).1
  perform (reserve campaign_id worker_id) w = (reserve_pair e campaign_id worker_id w).1
  perform (release pair outcome) w = (release_pair e pair outcome w).1
  perform (dial worker_id) w = (dialer_pass e worker_id w).1
  perform (campaign_created payload) w = (create_campaign e payload w).1
  perform (campaign_status campaign_id action) w = (change_status e campaign_id action w).1
  perform (campaign_mode campaign_id mode) w = (set_mode e campaign_id mode w).1
  perform recover w = (run_sweeps e w).1
  perform sample_metrics w = (sample_once e w).1
  perform (simulated_login campaign_id) w = (log_everyone_in e campaign_id w).1
  perform (simulated_heartbeats campaign_id) w = (heartbeat_round e campaign_id w).1
  perform (replay_events provider_call_id) w = (duplicate_event_burst e provider_call_id w).1
  perform (reverse_events provider_call_id) w = (out_of_order_burst e provider_call_id w).1
  perform (drop_agents campaign_id count) w = (agent_availability_drop e campaign_id count w).1

  unfoldable pub run : List Job → World → World
  unfolding perform
  run [] w = w
  run (job ∷ jobs) w = run jobs (perform job w)
