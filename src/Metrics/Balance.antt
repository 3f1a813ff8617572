-- ===== src/Metrics/Balance.antt =====
-- The numbers of a report are those of the calls that are stored.
use smart_dialer.Base.{
  ℕ, ◌+◌, ◌≤◌, ◌≡◌, refl, ◌==◌, ◌&&◌, not, Bool, List, [], ◌∷◌, count_if, arith,
}
use smart_dialer.Errors.{Outcome}
use smart_dialer.Model.{Campaign, Call}
use smart_dialer.Model.Enums.{CallState, same_call_state}
use smart_dialer.StateMachines.Call.{is_terminal}
use smart_dialer.Store.{Reply}
use smart_dialer.Metrics.Campaign.{CampaignMetrics, collect, active_calls, calls_initiated}
use smart_dialer.Repositories.Calls.Reports.{count_by_state}
use smart_dialer.World.{
  World, Action, Env, ◌>>=◌, now, query, arrive, answered, continue_with, pure,
}
use smart_dialer.World.Yields.{Yields, Any, Yields-Any, Yields-pure, Yields-bind, bind_at}
use smart_dialer.Lifecycle.Moves.{IsEnv}

-- the calls of a campaign that are in a state, have left the queue, or have left it and are not over
abbrev pub is_in : (campaign_id : ℕ) → CallState → Call → Bool
is_in campaign_id state d = d.campaign_id == campaign_id && same_call_state d.state state

abbrev pub has_left_queue : (campaign_id : ℕ) → Call → Bool
has_left_queue campaign_id d =
    d.campaign_id == campaign_id && not (same_call_state d.state CallState.queued)

abbrev pub is_under_way : (campaign_id : ℕ) → Call → Bool
is_under_way campaign_id d =
    d.campaign_id == campaign_id
    && not (same_call_state d.state CallState.queued)
    && not (is_terminal d.state)

active_counted :
    (id : ℕ) (calls : List Call)
    → active_calls (λ state. count_if (is_in id state) calls) ≡ count_if (is_under_way id) calls
active_counted id [] = refl
active_counted id (d ∷ calls) = ground (arith, active_counted id calls)

ended_counted :
    (id : ℕ) (calls : List Call)
    → count_if (has_left_queue id) calls
      ≡ count_if (is_under_way id) calls
        + count_if (is_in id CallState.completed) calls
        + count_if (is_in id CallState.failed) calls
        + count_if (is_in id CallState.cancelled) calls
ended_counted id [] = refl
ended_counted id (d ∷ calls) = ground (arith, ended_counted id calls)

-- What a report promises of the stored calls. If something is raised, nothing is promised.
abbrev pub IsBalancedReport :
    {F : Type 0} → (campaign_id : ℕ) → List Call → Outcome (CampaignMetrics F) → Type 0
IsBalancedReport id calls (Outcome.ok m) =
    (m.calls_initiated ≡ count_if (has_left_queue id) calls)
    × (m.active_calls ≡ count_if (is_under_way id) calls)
    × (m.calls_ringing ≡ count_if (is_in id CallState.ringing) calls)
    × (m.calls_connected ≡ count_if (is_in id CallState.connected) calls)
    × (m.calls_completed ≡ count_if (is_in id CallState.completed) calls)
    × (m.calls_failed ≡ count_if (is_in id CallState.failed) calls)
    × (m.calls_cancelled ≡ count_if (is_in id CallState.cancelled) calls)
    × (m.calls_initiated ≡ m.active_calls + m.calls_completed + m.calls_failed + m.calls_cancelled)
    × (m.active_calls ≤ m.peak_concurrent_calls)
IsBalancedReport id calls (Outcome.raised x) = Unit

-- The counts are those of the calls.
record IsCount (id : ℕ) (calls : List Call) (counts : CallState → ℕ) : Type 0 where
  exact : (state : CallState) → counts state ≡ count_if (is_in id state) calls

module _ (id : ℕ) (calls : List Call) (counts : CallState → ℕ) (k : IsCount id calls counts) where
  active_calls-exact : active_calls counts ≡ count_if (is_under_way id) calls
  active_calls-exact = omega (
    arith,
    k.exact CallState.reserved,
    k.exact CallState.initiated,
    k.exact CallState.ringing,
    k.exact CallState.answered,
    k.exact CallState.connected,
    active_counted id calls,
  )

  calls_initiated-exact : calls_initiated counts ≡ count_if (has_left_queue id) calls
  calls_initiated-exact = omega (
    arith,
    active_calls-exact,
    k.exact CallState.completed,
    k.exact CallState.failed,
    k.exact CallState.cancelled,
    ended_counted id calls,
  )

abbrev IsCountOutcome : (id : ℕ) → List Call → Outcome (CallState → ℕ) → Type 0
IsCountOutcome id calls (Outcome.ok counts) = IsCount id calls counts
IsCountOutcome id calls (Outcome.raised x) = Unit

reply-IsCount :
    (id : ℕ) (calls : List Call) (r : Reply (List Call)) (w : World)
    → ((found : List Call)
        → r ≡ Reply.reply found
        → (state : CallState)
        → count_if (λ (d : Call). same_call_state d.state state) found
          ≡ count_if (is_in id state) calls)
    → IsCountOutcome id calls
        (continue_with
          (answered r)
          (λ documents.
            pure (λ state. count_if (λ (d : Call). same_call_state d.state state) documents))
          w).0
unfolding pure
reply-IsCount id calls (Reply.reply found) w h = record { exact = h found refl }
reply-IsCount id calls Reply.duplicate_key w h = tt
reply-IsCount id calls Reply.unavailable w h = tt

module _ {F : Type 0} (e : Env F) (law : IsEnv e) (campaign : Campaign) (w : World) where
  abbrev stored : List Call
  stored = (arrive e w).calls

  count_by_state-IsCount : IsCountOutcome campaign.id stored (count_by_state e campaign.id w).0
  unfolding count_by_state query ◌>>=◌
  count_by_state-IsCount =
      reply-IsCount campaign.id stored _ _
        (λ found h state. law.calls_law.aggregate_found _ _ _ found h _)

  -- a step of which nothing is needed
  read :
      {A : Type 0} (m : Action A) (f : A → Action (CampaignMetrics F))
      → ((a : A) → Yields (IsBalancedReport campaign.id stored) (f a))
      → Yields (IsBalancedReport campaign.id stored) (m >>= f)
  read m f h =
      Yields-bind Any (IsBalancedReport campaign.id stored) m f (Yields-Any m) (λ a _. h a)
        (λ x _. tt)

  -- In an environment as `IsEnv` assumes, if a collection returns, its numbers are those of the
  -- campaign's calls as they are stored when the first request arrives: the calls that left the
  -- queue, those of them that are not over, and those that ring, are connected, completed, failed
  -- and cancelled. Each call that left the queue is counted once as active, completed, failed or
  -- cancelled, and the peak is at least the active calls.
  pub collect-IsBalancedReport :
      IsBalancedReport campaign.id (arrive e w).calls (collect e campaign w).0
  unfolding collect now
  collect-IsBalancedReport =
      bind_at Any (IsBalancedReport campaign.id stored) (now e) _ w tt
        (λ t _.
          bind_at (IsCountOutcome campaign.id stored) (IsBalancedReport campaign.id stored)
            (count_by_state e campaign.id) _ w count_by_state-IsCount
            (λ counts k.
              (read _ _ λ agent_counts. read _ _ λ agents. read _ _ λ moment. read _ _ λ outcomes.
                  read _ _ λ peaks. read _ _ λ done. read _ _ λ verdicts. read _ _ λ talk_time.
                    read _ _ λ setup_time. read _ _ λ counters. Yields-pure _ _ (
                      calls_initiated-exact campaign.id stored counts k,
                      active_calls-exact campaign.id stored counts k,
                      k.exact CallState.ringing,
                      k.exact CallState.connected,
                      k.exact CallState.completed,
                      k.exact CallState.failed,
                      k.exact CallState.cancelled,
                      omega arith,
                      omega arith,
                    )).at
                _)
            (λ x _. tt))
        (λ x _. tt)
