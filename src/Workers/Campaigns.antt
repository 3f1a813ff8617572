-- ===== src/Workers/Campaigns.antt =====
-- app/api/routes_campaigns.py: what an operator does to a campaign. The answer 404 is None here.
use smart_dialer.Base.{ℕ, String, Option, none, some}
use smart_dialer.Model.{Campaign}
use smart_dialer.Model.Enums.{CampaignStatus, DialingMode}
use smart_dialer.Repositories.Campaigns.{find_campaign_by_id, insert, set_status, set_dialing_mode}
use smart_dialer.World.{Action, Env, ◌>>=◌, pure, now, fresh_id}

pub data CampaignAction : Type 0 where
  start pause stop : CampaignAction

-- STATUS_ACTIONS
abbrev pub status_action : CampaignAction → CampaignStatus
status_action CampaignAction.start = CampaignStatus.running
status_action CampaignAction.pause = CampaignStatus.paused
status_action CampaignAction.stop = CampaignStatus.stopped

-- of app/api/schemas.py
pub record CreateCampaignRequest : Type 0 where
  pub name : String
  pub dialing_mode : DialingMode
  pub provider_name : ℕ
  pub max_concurrent_calls : ℕ
  pub baseline_answer_rate : ℕ

-- the campaign as `create_campaign` builds it, and its defaults
unfoldable pub new_campaign : CreateCampaignRequest → (id now : ℕ) → Campaign
new_campaign payload id t = record {
  id = id;
  name = payload.name;
  status = CampaignStatus.draft;
  dialing_mode = payload.dialing_mode;
  max_concurrent_calls = payload.max_concurrent_calls;
  provider_name = payload.provider_name;
  baseline_answer_rate = payload.baseline_answer_rate;
  created_at = t;
  updated_at = t;
}

module _ {F : Type 0} (e : Env F) where
  unfoldable pub create_campaign : CreateCampaignRequest → Action Campaign
  create_campaign payload = do id ← fresh_id e; t ← now e; insert e (new_campaign payload id t)

  -- the routes of a campaign that may be missing: `require_campaign`
  unfoldable pub with_campaign :
      (Campaign → Action (Option Campaign)) → Option Campaign → Action (Option Campaign)
  with_campaign route none = pure none
  with_campaign route (some campaign) = route campaign

  unfoldable pub change_status : ℕ → CampaignAction → Action (Option Campaign)
  unfolding with_campaign
  change_status campaign_id action = do
    found ← find_campaign_by_id e campaign_id
    with_campaign (λ campaign. set_status e campaign.id (status_action action)) found

  unfoldable pub set_mode : ℕ → DialingMode → Action (Option Campaign)
  unfolding with_campaign
  set_mode campaign_id mode = do
    found ← find_campaign_by_id e campaign_id
    with_campaign (λ campaign. set_dialing_mode e campaign.id mode) found
