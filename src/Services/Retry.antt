-- ===== src/Services/Retry.antt =====
-- app/services/retry_service.py
use smart_dialer.Base.{ℕ, Bool, true, false, leb, ltb, if◌then◌else◌}
use smart_dialer.Model.{Borrower}
use smart_dialer.Repositories.Borrowers.{BorrowerReleaseOutcome}
use smart_dialer.Services.ProviderHealth.{should_allow_retry}
use smart_dialer.World.{Action, Env, ◌>>=◌, pure, now}

abbrev pub outcome_for_terminal_call : Bool → BorrowerReleaseOutcome
outcome_for_terminal_call true = BorrowerReleaseOutcome.contacted
outcome_for_terminal_call false = BorrowerReleaseOutcome.retry

module _ {F : Type 0} (e : Env F) where
  unfoldable pub should_retry : Borrower → ℕ → Action Bool
  should_retry borrower provider_name =
      if leb e.settings.max_call_attempts borrower.attempt_count then pure false else do
        t ← now e
        (if ltb t borrower.next_eligible_at then pure false else should_allow_retry e provider_name)
