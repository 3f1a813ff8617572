-- ===== src/Pacing/Snapshot.antt =====
-- app/pacing/metrics_snapshot.py
use smart_dialer.Base.{ℕ, ◌+◌, ◌-◌, ◌*◌, Bool, true, false, Option, lookup_or, put}
use smart_dialer.Model.{Campaign}
use smart_dialer.Model.Enums.{AgentState, CallState, DialingMode, ProviderHealthStatus}
use smart_dialer.Pacing.AnswerRate.{observed_answer_rate}
use smart_dialer.Repositories.Agents.{
  count_by_state as agents_by_state, count_connected_longer_than,
}
use smart_dialer.Repositories.Calls.Reports.{
  count_by_state as calls_by_state, outcome_counts_between, average_talk_time_seconds,
  average_setup_time_ms,
}
use smart_dialer.Services.ProviderHealth.{get_health, health_factor}
use smart_dialer.World.{Action, Env, ◌>>=◌, ◌>>◌, pure, gets, set_snapshot_available, now}

pub record PacingSnapshot (F : Type 0) : Type 0 where
  pub campaign_id : ℕ
  pub mode : DialingMode
  pub available_agents : ℕ
  pub reserved_agents : ℕ
  pub dialing_agents : ℕ
  pub connected_agents : ℕ
  pub wrap_up_agents : ℕ
  pub long_connected_agents : ℕ
  pub previous_available_agents : ℕ
  pub ringing_calls : ℕ
  pub initiated_calls : ℕ
  pub active_calls : ℕ
  pub recent_answer_rate : Option F
  pub previous_answer_rate : Option F
  pub baseline_answer_rate : F
  pub avg_talk_time_seconds : F
  pub avg_setup_time_ms : F
  pub provider_status : ProviderHealthStatus
  pub health_factor : F
  pub captured_at : ℕ

module _ {F : Type 0} (e : Env F) where
  -- the agents that are connected for longer than a call takes on average, if that is known
  unfoldable pub long_connected_agents : ℕ → Bool → F → (now : ℕ) → Action ℕ
  long_connected_agents campaign_id false avg_talk_time t = pure 0
  long_connected_agents campaign_id true avg_talk_time t =
      count_connected_longer_than e campaign_id (t - e.floats.timedelta_ms avg_talk_time)

  unfoldable pub build_snapshot : Campaign → Action (PacingSnapshot F)
  unfolding long_connected_agents
  build_snapshot campaign = do
    t ← now e
    agent_counts ← agents_by_state e campaign.id
    call_counts ← calls_by_state e campaign.id
    avg_talk_time ← average_talk_time_seconds e campaign.id
    avg_setup_time ← average_setup_time_ms e campaign.id
    let window = e.settings.answer_rate_window_ms
    recent ← outcome_counts_between e campaign.id (t - window) t
    previous ← outcome_counts_between e campaign.id (t - window * 2) (t - window)
    long_connected ←
        long_connected_agents campaign.id (e.floats.lt (e.floats.of_ℕ 0) avg_talk_time)
          avg_talk_time t
    let available_agents = agent_counts AgentState.available
    counts ← gets (λ w. w.snapshot_available)
    set_snapshot_available (put campaign.id available_agents counts)
    health ← get_health e campaign.provider_name
    factor ← health_factor e campaign.provider_name
    pure (record {
      campaign_id = campaign.id;
      mode = campaign.dialing_mode;
      available_agents = available_agents;
      reserved_agents = agent_counts AgentState.reserved;
      dialing_agents = agent_counts AgentState.dialing;
      connected_agents = agent_counts AgentState.connected;
      wrap_up_agents = agent_counts AgentState.wrap_up;
      long_connected_agents = long_connected;
      previous_available_agents = lookup_or campaign.id available_agents counts;
      ringing_calls = call_counts CallState.ringing;
      initiated_calls = call_counts CallState.initiated;
      active_calls = call_counts CallState.ringing + call_counts CallState.initiated;
      recent_answer_rate = observed_answer_rate e.floats recent.answered recent.total;
      previous_answer_rate = observed_answer_rate e.floats previous.answered previous.total;
      baseline_answer_rate = e.floats.of_bits campaign.baseline_answer_rate;
      avg_talk_time_seconds = avg_talk_time;
      avg_setup_time_ms = avg_setup_time;
      provider_status = health.status;
      health_factor = factor;
      captured_at = t;
    })
