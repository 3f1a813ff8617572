-- ===== src/Handlers/Gate.antt =====
-- The health manager and the retry gate leave the database to the other workers.
use smart_dialer.Lifecycle.Moves.{retry_policy}
use smart_dialer.Lifecycle.Steps.{RetryPolicy}
use smart_dialer.Base.{ℕ, Bool, here}
use smart_dialer.Model.{Borrower}
use smart_dialer.World.{Env, ◌>>=◌, monotonic_now, now, gets, set_samples, pure}
use smart_dialer.Services.ProviderHealth.{
  record_originate, record_event_received, get_health, should_allow_retry,
}
use smart_dialer.Services.Retry.{should_retry}
use smart_dialer.Lifecycle.Moves.{
  IsEnv, Moves, moves_rules, Moves-now, Moves-pure, Moves-bind, Moves-if,
}

module _ {F : Type 0} (e : Env F) (law : IsEnv e) where
  abbrev k : RetryPolicy
  k = retry_policy e

  pub Moves-record_originate :
      (provider_name : ℕ) (success : Bool) (latency_ms : ℕ) (timed_out : Bool)
      → Moves k (record_originate e provider_name success latency_ms timed_out)
  unfolding record_originate ◌>>=◌ monotonic_now gets set_samples
  Moves-record_originate provider_name success latency_ms timed_out = record { at = λ w. here }

  pub Moves-record_event_received :
      (provider_name : ℕ) → Moves k (record_event_received e provider_name)
  unfolding record_event_received
  Moves-record_event_received provider_name = search moves_rules

  pub Moves-get_health : (provider_name : ℕ) → Moves k (get_health e provider_name)
  unfolding get_health ◌>>=◌ monotonic_now gets set_samples now pure
  Moves-get_health provider_name = record { at = λ w. here }

  Moves-should_allow_retry : (provider_name : ℕ) → Moves k (should_allow_retry e provider_name)
  unfolding should_allow_retry
  Moves-should_allow_retry provider_name =
      Moves-bind _ _ (Moves-get_health provider_name) (λ health. Moves-pure _)

  pub Moves-should_retry :
      (borrower : Borrower) (provider_name : ℕ) → Moves k (should_retry e borrower provider_name)
  unfolding should_retry
  Moves-should_retry borrower provider_name = Moves-if _ _ _ (Moves-pure _) (
      Moves-bind _ _ (Moves-now e law)
        (λ t. Moves-if _ _ _ (Moves-pure _) (Moves-should_allow_retry provider_name)))
