-- ===== src/Repositories/Campaigns.antt =====
-- app/repositories/campaign_repo.py
use smart_dialer.Base.{ℕ, Option, List, ◌==◌}
use smart_dialer.Model.{Campaign}
use smart_dialer.Model.Enums.{CampaignStatus, DialingMode, same_campaign_status}
use smart_dialer.Store.{unsorted}
use smart_dialer.World.{Action, Env, ◌>>=◌, ◌>>◌, pure, now, query, write_campaigns}

-- the default of `find_running`
abbrev pub running_limit : ℕ
running_limit = 100

-- what `set_status` and `set_dialing_mode` set
abbrev pub with_status : CampaignStatus → Campaign → Campaign
with_status status d = record d { status = status }

abbrev pub with_mode : DialingMode → Campaign → Campaign
with_mode mode d = record d { dialing_mode = mode }

module _ {F : Type 0} (e : Env F) where
  unfoldable pub find_campaign_by_id : ℕ → Action (Option Campaign)
  find_campaign_by_id campaign_id =
      query e λ n db. e.campaigns_db.find_one n (λ d. d.id == campaign_id) db.campaigns

  unfoldable pub find_running : ℕ → Action (List Campaign)
  find_running limit = query e λ n db.
      e.campaigns_db.find n (λ d. same_campaign_status d.status CampaignStatus.running) unsorted
        limit db.campaigns

  unfoldable pub insert : Campaign → Action Campaign
  insert campaign = do write_campaigns e (λ n. e.campaigns_db.insert_one n campaign); pure campaign

  -- `_update`, with the fields that are set
  unfoldable pub update_campaign : ℕ → (Campaign → Campaign) → Action (Option Campaign)
  update_campaign campaign_id updates = do
    t ← now e
    write_campaigns e λ n.
        e.campaigns_db.find_one_and_update n (λ d. d.id == campaign_id)
          (λ d. record (updates d) { updated_at = t })

  unfoldable pub set_status : ℕ → CampaignStatus → Action (Option Campaign)
  unfolding update_campaign
  set_status campaign_id status = update_campaign campaign_id (with_status status)

  unfoldable pub set_dialing_mode : ℕ → DialingMode → Action (Option Campaign)
  unfolding update_campaign
  set_dialing_mode campaign_id mode = update_campaign campaign_id (with_mode mode)
