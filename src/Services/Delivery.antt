-- ===== src/Services/Delivery.antt =====
-- `on_event` of app/main.py, which the providers call with each event.
use smart_dialer.Repositories.Events.{ProviderEvent}
use smart_dialer.Services.EventProcessor.{process_event}
use smart_dialer.Services.ProviderHealth.{record_event_received}
use smart_dialer.World.{Action, Env, ◌>>◌, pure}

module _ {F : Type 0} (e : Env F) where
  unfoldable pub on_event : ProviderEvent → Action (Unit {0})
  on_event event = do record_event_received e event.provider_name; process_event e event; pure tt
