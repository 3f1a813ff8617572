-- ===== src/Metrics/Campaign.antt =====
-- app/metrics/campaign_metrics.py, and the sampler of app/metrics/collector.py
use smart_dialer.Base.{ℕ, ◌+◌, ◌-◌, max, Option, List, [], ◌∷◌, lookup_or, put, count_if}
use smart_dialer.Model.{Campaign}
use smart_dialer.Model.Enums.{
  AgentState, CallState, CampaignStatus, DialingMode, SafetyVerdict, same_verdict,
}
use smart_dialer.Metrics.Utilization.{ratio, campaign_utilization}
use smart_dialer.Repositories.Agents.{count_by_state as agents_by_state, find_for_campaign}
use smart_dialer.Repositories.Calls.Reports.{
  count_by_state as calls_by_state, outcome_counts_between, average_talk_time_seconds,
  average_setup_time_ms,
}
use smart_dialer.Repositories.Campaigns.{find_running, running_limit}
use smart_dialer.World.{
  Counters, Action, Env, ◌>>=◌, ◌>>◌, pure, gets, set_peak_concurrent, now, ask, answered,
}

-- the default of `find_for_campaign`
abbrev pub agents_limit : ℕ
agents_limit = 10000

-- the sum over ACTIVE_CALL_STATES
abbrev pub active_calls : (CallState → ℕ) → ℕ
active_calls call_counts =
    call_counts CallState.reserved
    + call_counts CallState.initiated
    + call_counts CallState.ringing
    + call_counts CallState.answered
    + call_counts CallState.connected

-- the sum over the states other than QUEUED
abbrev pub calls_initiated : (CallState → ℕ) → ℕ
calls_initiated call_counts =
    call_counts CallState.reserved
    + call_counts CallState.initiated
    + call_counts CallState.ringing
    + call_counts CallState.answered
    + call_counts CallState.connected
    + call_counts CallState.completed
    + call_counts CallState.failed
    + call_counts CallState.cancelled

pub record CampaignMetrics (F : Type 0) : Type 0 where
  pub campaign_id : ℕ
  pub dialing_mode : DialingMode
  pub campaign_status : CampaignStatus
  pub collected_at : ℕ
  pub calls_initiated : ℕ
  pub calls_connected : ℕ
  pub calls_completed : ℕ
  pub calls_failed : ℕ
  pub calls_cancelled : ℕ
  pub calls_ringing : ℕ
  pub active_calls : ℕ
  pub peak_concurrent_calls : ℕ
  pub answer_rate : Option F
  pub average_talk_time_seconds : F
  pub average_setup_time_ms : F
  pub agent_states : AgentState → ℕ
  pub talk_utilization : Option F
  pub productive_utilization : Option F
  pub safety_verdicts : SafetyVerdict → ℕ
  pub progressive_fallbacks : ℕ
  pub counters : Counters

module _ {F : Type 0} (e : Env F) where
  -- the dictionary that `count_by_verdict` returns, by its entries
  unfoldable pub count_by_verdict : ℕ → Action (SafetyVerdict → ℕ)
  count_by_verdict campaign_id = do
    verdicts ← ask e (λ n. answered (e.verdicts_db n campaign_id))
    pure (λ verdict. count_if (λ v. same_verdict v verdict) verdicts)

  unfoldable pub collect : Campaign → Action (CampaignMetrics F)
  unfolding count_by_verdict
  collect campaign = do
    t ← now e
    call_counts ← calls_by_state e campaign.id
    agent_counts ← agents_by_state e campaign.id
    agents ← find_for_campaign e campaign.id agents_limit
    moment ← now e
    let utilization = campaign_utilization e.floats agents moment
    outcomes ← outcome_counts_between e campaign.id (t - e.settings.answer_rate_window_ms) t
    peaks ← gets (λ w. w.peak_concurrent)
    let peak = max (lookup_or campaign.id 0 peaks) (active_calls call_counts)
    set_peak_concurrent (put campaign.id peak peaks)
    verdicts ← count_by_verdict campaign.id
    talk_time ← average_talk_time_seconds e campaign.id
    setup_time ← average_setup_time_ms e campaign.id
    counters ← gets (λ w. w.counters)
    pure (record {
      campaign_id = campaign.id;
      dialing_mode = campaign.dialing_mode;
      campaign_status = campaign.status;
      collected_at = t;
      calls_initiated = calls_initiated call_counts;
      calls_connected = call_counts CallState.connected;
      calls_completed = call_counts CallState.completed;
      calls_failed = call_counts CallState.failed;
      calls_cancelled = call_counts CallState.cancelled;
      calls_ringing = call_counts CallState.ringing;
      active_calls = active_calls call_counts;
      peak_concurrent_calls = peak;
      answer_rate = ratio e.floats outcomes.answered outcomes.total;
      average_talk_time_seconds = talk_time;
      average_setup_time_ms = setup_time;
      agent_states = agent_counts;
      talk_utilization = utilization.talk_utilization;
      productive_utilization = utilization.productive_utilization;
      safety_verdicts = verdicts;
      progressive_fallbacks = verdicts SafetyVerdict.fallback_progressive;
      counters = counters;
    })

  -- the loop of `sample_once`
  unfoldable pub sample_campaigns : ℕ → List Campaign → Action ℕ
  unfolding collect
  sample_campaigns sampled [] = pure sampled
  sample_campaigns sampled (campaign ∷ campaigns) = do
    metrics ← collect campaign
    ask e (λ n. answered (e.decisions_db n))
    sample_campaigns (sampled + 1) campaigns

  unfoldable pub sample_once : Action ℕ
  unfolding sample_campaigns
  sample_once = do campaigns ← find_running e running_limit; sample_campaigns 0 campaigns
