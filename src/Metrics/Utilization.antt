-- ===== src/Metrics/Utilization.antt =====
-- app/metrics/utilization.py. Times are whole milliseconds, so nothing is lost where the source
-- takes an interval in seconds and multiplies by 1000.
use smart_dialer.Base.{
  ℕ, zero, suc, ◌+◌, ◌-◌, Bool, true, false, Option, none, some, List, [], ◌∷◌, length,
  if◌then◌else◌,
}
use smart_dialer.Model.{Agent}
use smart_dialer.Model.Enums.{AgentState}
use smart_dialer.Settings.{Floats}

-- UTILIZATION_DENOMINATOR_STATES
abbrev pub is_counted_state : AgentState → Bool
is_counted_state AgentState.offline = false
is_counted_state AgentState.paused = false
is_counted_state _ = true

pub record AgentUtilization (F : Type 0) : Type 0 where
  pub agent_id : ℕ
  pub connected_time_ms : ℕ
  pub productive_time_ms : ℕ
  pub counted_time_ms : ℕ
  pub talk_utilization : Option F
  pub productive_utilization : Option F

pub record CampaignUtilization (F : Type 0) : Type 0 where
  pub connected_time_ms : ℕ
  pub productive_time_ms : ℕ
  pub counted_time_ms : ℕ
  pub talk_utilization : Option F
  pub productive_utilization : Option F
  pub agents_counted : ℕ

-- `max(0, ...)`, as subtraction on ℕ does
unfoldable pub elapsed_in_current_state_ms : Agent → (now : ℕ) → ℕ
elapsed_in_current_state_ms agent t =
    if is_counted_state agent.state then t - agent.state_changed_at else 0

pub record Totals : Type 0 where
  pub connected : ℕ
  pub productive : ℕ
  pub counted : ℕ

-- what the current state adds to the accounts of an agent
abbrev pub live_connected : AgentState → ℕ → ℕ → ℕ
live_connected AgentState.connected connected elapsed = connected + elapsed
live_connected _ connected elapsed = connected

abbrev pub live_wrap_up : AgentState → ℕ → ℕ → ℕ
live_wrap_up AgentState.wrap_up wrap_up elapsed = wrap_up + elapsed
live_wrap_up _ wrap_up elapsed = wrap_up

unfoldable pub live_totals : Agent → (now : ℕ) → Totals
unfolding elapsed_in_current_state_ms
live_totals agent t =
    let elapsed = elapsed_in_current_state_ms agent t in
    let connected = live_connected agent.state agent.connected_time_ms elapsed in
    let wrap_up = live_wrap_up agent.state agent.wrap_up_time_ms elapsed in
    record {
      connected = connected;
      productive = connected + wrap_up;
      counted = agent.busy_time_ms + agent.available_time_ms + elapsed;
    }

-- the sums over the agents
unfoldable pub sum_totals : (now : ℕ) → List Agent → Totals
unfolding live_totals
sum_totals t [] = record { connected = 0; productive = 0; counted = 0 }
sum_totals t (agent ∷ agents) =
    let item = live_totals agent t in
    let rest = sum_totals t agents in
    record {
      connected = item.connected + rest.connected;
      productive = item.productive + rest.productive;
      counted = item.counted + rest.counted;
    }

module _ {F : Type 0} (floats : Floats F) where
  unfoldable pub ratio : (numerator denominator : ℕ) → Option F
  ratio numerator zero = none
  ratio numerator (suc n) = some (floats.div (floats.of_ℕ numerator) (floats.of_ℕ (suc n)))

  unfoldable pub agent_utilization : Agent → (now : ℕ) → AgentUtilization F
  unfolding live_totals ratio
  agent_utilization agent t =
      let totals = live_totals agent t in
      record {
        agent_id = agent.id;
        connected_time_ms = totals.connected;
        productive_time_ms = totals.productive;
        counted_time_ms = totals.counted;
        talk_utilization = ratio totals.connected totals.counted;
        productive_utilization = ratio totals.productive totals.counted;
      }

  unfoldable pub campaign_utilization : List Agent → (now : ℕ) → CampaignUtilization F
  unfolding sum_totals ratio
  campaign_utilization agents t =
      let totals = sum_totals t agents in
      record {
        connected_time_ms = totals.connected;
        productive_time_ms = totals.productive;
        counted_time_ms = totals.counted;
        talk_utilization = ratio totals.connected totals.counted;
        productive_utilization = ratio totals.productive totals.counted;
        agents_counted = length agents;
      }
