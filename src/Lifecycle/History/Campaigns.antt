-- ===== src/Lifecycle/History/Campaigns.antt =====
-- The history of one campaign.
use smart_dialer.Lifecycle.Steps.{RetryPolicy}
use smart_dialer.Base.{
  ℕ, ◌≡◌, refl, Option, some, Star, here, next, Star-trans, ◌∙◌, get, get-replace_steps, get-insert,
}
use smart_dialer.Model.{Campaign}
use smart_dialer.World.{Database}
use smart_dialer.Lifecycle.Steps.{CampaignStep}
use smart_dialer.Lifecycle.Database.{
  Step, agent, borrower, call, new_call, event, new_event, campaign, new_campaign, Reach,
}

abbrev pub find_campaign : ℕ → Database → Option Campaign
find_campaign id s = get (λ (x : Campaign). x.id) id s.campaigns

-- What it has become in a later database.
record Later (id : ℕ) (x : Campaign) (t : Database) : Type 0 where
  document : Campaign
  found : find_campaign id t ≡ some document
  steps : Star CampaignStep x document

stays : (id : ℕ) (x : Campaign) {t : Database} → find_campaign id t ≡ some x → Later id x t
stays id x h = record { document = x; found = h; steps = here }

Step-Later :
    {k : RetryPolicy} {s t : Database} (id : ℕ) (x : Campaign)
    → Step k s t
    → find_campaign id s ≡ some x
    → Later id x t
Step-Later id x (agent left d d' right at step) h = stays id x h
Step-Later id x (borrower left d d' right at step) h = stays id x h
Step-Later id x (call left d d' right at step) h = stays id x h
Step-Later id x (new_call left d right at free _ _) h = stays id x h
Step-Later id x (event left d d' right at step) h = stays id x h
Step-Later id x (new_event left d right at free) h = stays id x h
Step-Later id x (campaign left d d' right at step) h =
    let (y, found, steps) =
      get-replace_steps _ (CampaignStep) id x left d d' right step.same_id step (rw at at h) in
    record { document = y; found = found; steps = steps }
Step-Later id x (new_campaign left d right at free) h =
    stays id x (get-insert _ id x left d right free (rw at at h))

Reach-Later :
    {k : RetryPolicy} {s t : Database} (id : ℕ) (x : Campaign)
    → Reach k s t
    → find_campaign id s ≡ some x
    → Later id x t
Reach-Later id x here h = stays id x h
Reach-Later id x (next r st) h =
    let l = Reach-Later id x r h in
    let m = Step-Later id l.document st l.found in
    record { document = m.document; found = m.found; steps = Star-trans l.steps m.steps }

Star-fixed :
    {a b : Campaign}
    → Star CampaignStep a b
    → (b.provider_name ≡ a.provider_name)
      × (b.max_concurrent_calls ≡ a.max_concurrent_calls)
      × (b.baseline_answer_rate ≡ a.baseline_answer_rate)
Star-fixed here = (refl, refl, refl)
Star-fixed (next r s) =
    let (provider, cap, rate) = Star-fixed r in
    (s.same_provider ∙ provider, s.same_cap ∙ cap, s.same_baseline ∙ rate)

-- Whatever the workers and operators do, a campaign stays stored with its provider, its cap and
-- its baseline answer rate.
pub campaign_fixed :
    {k : RetryPolicy} {s t : Database} (id : ℕ) {a : Campaign}
    → Reach k s t
    → find_campaign id s ≡ some a
    → (b : Campaign) × (find_campaign id t ≡ some b)
      × (b.provider_name ≡ a.provider_name)
      × (b.max_concurrent_calls ≡ a.max_concurrent_calls)
      × (b.baseline_answer_rate ≡ a.baseline_answer_rate)
campaign_fixed id {a} reached stored =
    let l = Reach-Later id a reached stored in
    let (provider, cap, rate) = Star-fixed l.steps in (l.document, l.found, provider, cap, rate)
