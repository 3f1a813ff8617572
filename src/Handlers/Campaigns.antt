-- ===== src/Handlers/Campaigns.antt =====
-- The passes over the running campaigns, and what operators do to a campaign.
use smart_dialer.Lifecycle.Moves.{retry_policy}
use smart_dialer.Lifecycle.Steps.{RetryPolicy}
use smart_dialer.Base.{ℕ, refl, List, [], ◌∷◌, Option, none, some}
use smart_dialer.Errors.{Error, Outcome}
use smart_dialer.Model.{Campaign}
use smart_dialer.Model.Enums.{DialingMode}
use smart_dialer.Repositories.Campaigns.{
  find_campaign_by_id, find_running, insert, update_campaign, set_status, set_dialing_mode,
  with_status, with_mode,
}
use smart_dialer.Workers.Dialer.{
  unless_cancelled, tick_and_release, tick_campaign, tick_campaigns, run_once, dialer_pass,
}
use smart_dialer.Workers.Campaigns.{
  CampaignAction, CreateCampaignRequest, create_campaign, with_campaign, change_status, set_mode,
}
use smart_dialer.Handlers.Agents.{Moves-release_finished_wrap_ups}
use smart_dialer.Handlers.Dialing.{Moves-tick}
use smart_dialer.World.{Action, Env}
use smart_dialer.Lifecycle.Steps.{CampaignStep}
use smart_dialer.Lifecycle.Moves.{
  IsEnv, Moves, moves_rules, Moves-pure, Moves-bind, Moves-attempt, Moves-now, Moves-query,
  Moves-fresh_id, Moves-write_campaigns, Moves-insert_campaign,
}

module _ {F : Type 0} (e : Env F) (law : IsEnv e) where
  abbrev k : RetryPolicy
  k = retry_policy e

  Moves-unless_cancelled : (r : Outcome (Unit {0})) → Moves k (unless_cancelled e r)
  unfolding unless_cancelled
  Moves-unless_cancelled (Outcome.ok _) = search moves_rules
  Moves-unless_cancelled (Outcome.raised Error.cancelled) = search moves_rules
  Moves-unless_cancelled (Outcome.raised _) = search moves_rules

  Moves-tick_campaign :
      (campaign : Campaign) (worker_id : ℕ) → Moves k (tick_campaign e campaign worker_id)
  unfolding tick_campaign tick_and_release
  Moves-tick_campaign campaign worker_id =
      Moves-attempt _ _
        (Moves-bind _ _ (Moves-tick e law _ campaign worker_id)
          (λ _. Moves-bind _ _ (Moves-release_finished_wrap_ups e law _) (λ _. Moves-pure _)))
        (λ r. Moves-unless_cancelled r)

  Moves-tick_campaigns :
      (worker_id : ℕ) (campaigns : List Campaign) → Moves k (tick_campaigns e worker_id campaigns)
  unfolding tick_campaigns
  Moves-tick_campaigns worker_id [] = Moves-pure _
  Moves-tick_campaigns worker_id (campaign ∷ campaigns) =
      Moves-bind _ _ (Moves-tick_campaign campaign worker_id)
        (λ _. Moves-tick_campaigns worker_id campaigns)

  pub Moves-dialer_pass : (worker_id : ℕ) → Moves k (dialer_pass e worker_id)
  unfolding dialer_pass run_once find_running
  Moves-dialer_pass worker_id =
      Moves-attempt _ _
        (Moves-bind _ _ (Moves-query e law _)
          (λ campaigns. Moves-tick_campaigns worker_id campaigns))
        (λ r. Moves-unless_cancelled r)

  pub Moves-create_campaign :
      (payload : CreateCampaignRequest) → Moves k (create_campaign e payload)
  unfolding create_campaign insert
  Moves-create_campaign payload = Moves-bind _ _ (Moves-fresh_id e law) λ id.
      Moves-bind _ _ (Moves-now e law)
        λ t. Moves-bind _ _ (Moves-insert_campaign e law _) (λ _. Moves-pure _)

  -- An update that leaves the provider, the cap and the rate alone.
  Moves-update_campaign :
      (campaign_id : ℕ) (updates : Campaign → Campaign)
      → ((d : Campaign) → CampaignStep d (updates d))
      → Moves k (update_campaign e campaign_id updates)
  unfolding update_campaign
  Moves-update_campaign campaign_id updates step = Moves-bind _ _ (Moves-now e law) λ t.
      Moves-write_campaigns e law _ _ λ d fit.
        let s = step d in
        record {
          same_id = s.same_id;
          same_provider = s.same_provider;
          same_cap = s.same_cap;
          same_baseline = s.same_baseline;
        }

  Moves-with_campaign :
      (route : Campaign → Action (Option Campaign)) (found : Option Campaign)
      → ((campaign : Campaign) → Moves k (route campaign))
      → Moves k (with_campaign e route found)
  unfolding with_campaign
  Moves-with_campaign route none h = Moves-pure _
  Moves-with_campaign route (some campaign) h = h campaign

  pub Moves-change_status :
      (campaign_id : ℕ) (action : CampaignAction) → Moves k (change_status e campaign_id action)
  unfolding change_status find_campaign_by_id set_status
  Moves-change_status campaign_id action = Moves-bind _ _ (Moves-query e law _) λ found.
      Moves-with_campaign _ found λ campaign. Moves-update_campaign _ (with_status _) (λ d. record {
        same_id = refl;
        same_provider = refl;
        same_cap = refl;
        same_baseline = refl;
      })

  pub Moves-set_mode :
      (campaign_id : ℕ) (mode : DialingMode) → Moves k (set_mode e campaign_id mode)
  unfolding set_mode find_campaign_by_id set_dialing_mode
  Moves-set_mode campaign_id mode = Moves-bind _ _ (Moves-query e law _) λ found.
      Moves-with_campaign _ found λ campaign. Moves-update_campaign _ (with_mode mode) (λ d.
        record { same_id = refl; same_provider = refl; same_cap = refl; same_baseline = refl })
