-- ===== src/Workers/Dialer.antt =====
-- app/workers/dialer_worker.py: a pass over the running campaigns. An error in one campaign does
-- not keep the others from their tick; only a cancellation passes.
use smart_dialer.Base.{ℕ, List, [], ◌∷◌}
use smart_dialer.Errors.{Error, Outcome}
use smart_dialer.Model.{Campaign}
use smart_dialer.Dialers.{tick}
use smart_dialer.Dialers.Modes.{select}
use smart_dialer.Repositories.Campaigns.{find_running, running_limit}
use smart_dialer.Workers.WrapUp.{release_finished_wrap_ups}
use smart_dialer.World.{Action, Env, ◌>>=◌, ◌>>◌, pure, raise, attempt}

module _ {F : Type 0} (e : Env F) where
  -- the handlers of `_tick_campaign` and `_run`, which log the error
  unfoldable pub unless_cancelled : Outcome (Unit {0}) → Action (Unit {0})
  unless_cancelled (Outcome.ok _) = pure tt
  unless_cancelled (Outcome.raised Error.cancelled) = raise Error.cancelled
  unless_cancelled (Outcome.raised x) = pure tt

  -- the body of the `try` in `_tick_campaign`
  unfoldable pub tick_and_release : Campaign → (worker_id : ℕ) → Action (Unit {0})
  tick_and_release campaign worker_id = do
    tick e (select campaign) campaign worker_id
    release_finished_wrap_ups e campaign.id
    pure tt

  unfoldable pub tick_campaign : Campaign → (worker_id : ℕ) → Action (Unit {0})
  unfolding tick_and_release unless_cancelled
  tick_campaign campaign worker_id = attempt (tick_and_release campaign worker_id) unless_cancelled

  unfoldable pub tick_campaigns : (worker_id : ℕ) → List Campaign → Action (Unit {0})
  unfolding tick_campaign
  tick_campaigns worker_id [] = pure tt
  tick_campaigns worker_id (campaign ∷ campaigns) = do
    tick_campaign campaign worker_id
    tick_campaigns worker_id campaigns

  unfoldable pub run_once : (worker_id : ℕ) → Action (Unit {0})
  unfolding tick_campaigns
  run_once worker_id = do
    campaigns ← find_running e running_limit
    tick_campaigns worker_id campaigns

  -- one round of the loop in `_run`
  unfoldable pub dialer_pass : (worker_id : ℕ) → Action (Unit {0})
  unfolding run_once
  dialer_pass worker_id = attempt (run_once worker_id) unless_cancelled
