-- ===== src/Simulation/Faults.antt =====
-- app/simulation/fault_injector.py: the faults that go through the database. The others change a
-- mock provider's behaviour.
use smart_dialer.Base.{ℕ, Option, none, some, List, [], ◌∷◌, length, reverse}
use smart_dialer.Repositories.Events.{ProviderEvent, find_latest, find_provider_events_for_call}
use smart_dialer.Services.EventProcessor.{process_event}
use smart_dialer.Simulation.Agents.{take_agents_offline}
use smart_dialer.World.{Action, Env, ◌>>=◌, ◌>>◌, pure}

-- the FAULT_ names
pub data Fault : Type 0 where
  duplicate_events out_of_order_events availability_drop : Fault

pub record FaultResult : Type 0 where
  pub fault : Fault
  pub affected : ℕ

module _ {F : Type 0} (e : Env F) where
  unfoldable pub replayable_events : Option ℕ → Action (List ProviderEvent)
  replayable_events none = find_latest e 20
  replayable_events (some provider_call_id) = find_provider_events_for_call e provider_call_id

  unfoldable pub process_each : List ProviderEvent → Action (Unit {0})
  process_each [] = pure tt
  process_each (event ∷ events) = do process_event e event; process_each events

  unfoldable pub duplicate_event_burst : Option ℕ → Action FaultResult
  unfolding replayable_events process_each
  duplicate_event_burst provider_call_id = do
    events ← replayable_events provider_call_id
    process_each events
    pure (record { fault = Fault.duplicate_events; affected = length events })

  unfoldable pub out_of_order_burst : Option ℕ → Action FaultResult
  unfolding replayable_events process_each
  out_of_order_burst provider_call_id = do
    events ← replayable_events provider_call_id
    process_each (reverse events)
    pure (record { fault = Fault.out_of_order_events; affected = length events })

  unfoldable pub agent_availability_drop : (campaign_id count : ℕ) → Action FaultResult
  agent_availability_drop campaign_id count = do
    removed ← take_agents_offline e campaign_id count
    pure (record { fault = Fault.availability_drop; affected = removed })
