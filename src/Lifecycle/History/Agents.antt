-- ===== src/Lifecycle/History/Agents.antt =====
-- The history of one agent.
use smart_dialer.Lifecycle.Steps.{RetryPolicy}
use smart_dialer.Base.{
  ℕ, ◌≤◌, ◌≡◌, refl, sym, Option, some, Star, here, next, Star-trans, ◌∙◌, All, All-replace, get,
  get-replace_steps, arith,
}
use smart_dialer.Model.{Agent}
use smart_dialer.World.{Database}
use smart_dialer.Lifecycle.Steps.{AgentStep, AgentProgress, HasLease, IsAccounted}
use smart_dialer.Lifecycle.Database.{
  Step, agent, borrower, call, new_call, event, new_event, campaign, new_campaign, Reach,
}

abbrev pub find_agent : ℕ → Database → Option Agent
find_agent id s = get (λ (x : Agent). x.id) id s.agents

-- What it has become in a later database.
pub record Later (id : ℕ) (x : Agent) (t : Database) : Type 0 where
  pub document : Agent
  pub found : find_agent id t ≡ some document
  pub steps : Star AgentStep x document

stays : (id : ℕ) (x : Agent) {t : Database} → find_agent id t ≡ some x → Later id x t
stays id x h = record { document = x; found = h; steps = here }

Step-Later :
    {k : RetryPolicy} {s t : Database} (id : ℕ) (x : Agent)
    → Step k s t
    → find_agent id s ≡ some x
    → Later id x t
Step-Later id x (agent left d d' right at step) h =
    let (y, found, steps) =
      get-replace_steps _ (AgentStep) id x left d d' right step.same_id step (rw at at h) in
    record { document = y; found = found; steps = steps }
Step-Later id x (borrower left d d' right at step) h = stays id x h
Step-Later id x (call left d d' right at step) h = stays id x h
Step-Later id x (new_call left d right at free _ _) h = stays id x h
Step-Later id x (event left d d' right at step) h = stays id x h
Step-Later id x (new_event left d right at free) h = stays id x h
Step-Later id x (campaign left d d' right at step) h = stays id x h
Step-Later id x (new_campaign left d right at free) h = stays id x h

-- A document that is stored stays stored, and changes by steps of its specification only.
pub Reach-Later :
    {k : RetryPolicy} {s t : Database} (id : ℕ) (x : Agent)
    → Reach k s t
    → find_agent id s ≡ some x
    → Later id x t
Reach-Later id x here h = stays id x h
Reach-Later id x (next r st) h =
    let l = Reach-Later id x r h in
    let m = Step-Later id l.document st l.found in
    record { document = m.document; found = m.found; steps = Star-trans l.steps m.steps }

-- What any number of steps keeps.
record Kept (a b : Agent) : Type 0 where
  version : a.state_version ≤ b.state_version
  same : b.state_version ≡ a.state_version → b.state ≡ a.state
  same_campaign : b.campaign_id ≡ a.campaign_id
  busy : a.busy_time_ms ≤ b.busy_time_ms
  connected : a.connected_time_ms ≤ b.connected_time_ms

Kept-step : {a b c : Agent} → Kept a b → AgentStep b c → Kept a c
Kept-step {a} {b} {c} h s = record {
  version = version-step s.progress;
  same = same-step s.progress;
  same_campaign = s.same_campaign ∙ h.same_campaign;
  busy = omega (arith, h.busy, s.busy);
  connected = omega (arith, h.connected, s.connected);
}
  where
    version-step : AgentProgress b c → a.state_version ≤ c.state_version
    version-step (AgentProgress.kept _ v) = omega (arith, h.version)
    version-step (AgentProgress.moved _ _ v) = omega (arith, h.version)

    same-step : AgentProgress b c → c.state_version ≡ a.state_version → c.state ≡ a.state
    same-step (AgentProgress.kept q v) e = q ∙ h.same (sym v ∙ e)
    same-step (AgentProgress.moved _ _ v) e = absurd (omega (arith, h.version))

Star-Kept : {a b : Agent} → Star AgentStep a b → Kept a b
Star-Kept here = record {
  version = omega arith;
  same = λ e. refl;
  same_campaign = refl;
  busy = omega arith;
  connected = omega arith;
}
Star-Kept (next r s) = Kept-step (Star-Kept r) s

-- Whatever the workers do, an agent stays stored in its campaign, its version and its accounts of
-- time never fall, and as long as its version is the one that was read, its state is too.
pub version_tells_state :
    {k : RetryPolicy} {s t : Database} (id : ℕ) {a : Agent}
    → Reach k s t
    → find_agent id s ≡ some a
    → (b : Agent) × (find_agent id t ≡ some b)
      × (a.state_version ≤ b.state_version)
      × (b.state_version ≡ a.state_version → b.state ≡ a.state)
      × (b.campaign_id ≡ a.campaign_id)
      × (a.busy_time_ms ≤ b.busy_time_ms)
      × (a.connected_time_ms ≤ b.connected_time_ms)
version_tells_state id {a} reached stored =
    let l = Reach-Later id a reached stored in
    let h = Star-Kept l.steps in
    (l.document, l.found, h.version, h.same, h.same_campaign, h.busy, h.connected)

-- What every step of an agent keeps holds of every agent, whatever the workers do.
agents-All :
    {k : RetryPolicy} {s t : Database} (P : Agent → Type 0)
    → ((d d' : Agent) → AgentStep d d' → P d → P d')
    → Reach k s t
    → All P s.agents
    → All P t.agents
agents-All P keep here h = h
agents-All P keep (next r (agent left d d' right at x)) h =
    All-replace P left d d' right (keep d d' x) (rw at at (agents-All P keep r h))
agents-All P keep (next r (borrower left d d' right at x)) h = agents-All P keep r h
agents-All P keep (next r (call left d d' right at x)) h = agents-All P keep r h
agents-All P keep (next r (new_call left d right at _ fresh _)) h = agents-All P keep r h
agents-All P keep (next r (event left d d' right at x)) h = agents-All P keep r h
agents-All P keep (next r (new_event left d right at free)) h = agents-All P keep r h
agents-All P keep (next r (campaign left d d' right at x)) h = agents-All P keep r h
agents-All P keep (next r (new_campaign left d right at free)) h = agents-All P keep r h

-- Whatever the workers do, every agent that is reserved, dialing or connected has a worker that
-- holds it and a time at which the lease ends.
pub agents_leased :
    {k : RetryPolicy} {s t : Database} → Reach k s t → All HasLease s.agents → All HasLease t.agents
agents_leased = agents-All HasLease (λ d d' step. step.lease)

-- Whatever the workers do, the accounts of every agent stay in order.
pub agents-IsAccounted :
    {k : RetryPolicy} {s t : Database}
    → Reach k s t
    → All IsAccounted s.agents
    → All IsAccounted t.agents
agents-IsAccounted = agents-All IsAccounted (λ d d' step. step.accounted)
