-- ===== src/Repositories/Calls/Reports.antt =====
-- app/repositories/call_repo.py, the queries that count and average
use text.Mathlib.Text.{◌==◌ as same_text}
use smart_dialer.Base.{
  count_if, length, leb, ℕ, Bool, true, false, Option, none, some, List, [], ◌∷◌, ◌==◌, ◌&&◌, not,
  ltb, is_some,
}
use smart_dialer.Model.{Call}
use smart_dialer.Model.Enums.{CallState, same_call_state}
use smart_dialer.World.{Action, Env, ◌>>=◌, pure, query}

-- FAILED, for a reason that is not one of EXPECTED_CALL_OUTCOMES
abbrev counts_as_system_failure : Call → Bool
counts_as_system_failure d = same_call_state d.state CallState.failed && elim d.failure_reason [
  | none ↦ true
  | some reason ↦ not (same_text reason "no_answer") && not (same_text reason "busy")
]

pub record OutcomeCounts : Type 0 where
  pub total : ℕ
  pub answered : ℕ
  pub failed : ℕ
  pub system_failed : ℕ

-- `{"$gte": start, "$lt": end}` on a field that may be null
abbrev is_between : ℕ → ℕ → Option ℕ → Bool
is_between start end none = false
is_between start end (some t) = leb start t && ltb t end

-- the documents that have both times, as pairs of the later and the earlier one
abbrev time_pairs : (later earlier : Call → Option ℕ) → List Call → List (ℕ × ℕ)
time_pairs later earlier [] = []
time_pairs later earlier (d ∷ documents) =
    let rest = time_pairs later earlier documents in
    elim (later d) [
      | none ↦ rest
      | some t ↦ elim (earlier d) [ none ↦ rest | some u ↦ (t, u) ∷ rest ]
    ]

module _ {F : Type 0} (e : Env F) where
  -- one entry of the dictionary that `count_by_state` returns
  unfoldable pub count_by_state : ℕ → Action (CallState → ℕ)
  count_by_state campaign_id = do
    documents ← query e λ n db. e.calls_db.aggregate n (λ d. d.campaign_id == campaign_id) db.calls
    pure (λ state. count_if (λ (d : Call). same_call_state d.state state) documents)

  unfoldable pub outcome_counts_between : ℕ → (start end : ℕ) → Action OutcomeCounts
  outcome_counts_between campaign_id start end = do
    documents ← query e λ n db.
        e.calls_db.aggregate n
          (λ d. d.campaign_id == campaign_id && d.terminal && is_between start end d.ended_at)
          db.calls
    pure (record {
      total = length documents;
      answered = count_if (λ (d : Call). is_some d.answered_at) documents;
      failed = count_if (λ (d : Call). same_call_state d.state CallState.failed) documents;
      system_failed = count_if counts_as_system_failure documents;
    })

  -- the row's average, in a unit; without documents there is no row, and 0.0 is returned
  abbrev average_in : (unit : F → F) → List (ℕ × ℕ) → F
  average_in unit [] = e.floats.of_ℕ 0
  average_in unit (p ∷ pairs) = unit (e.average (p ∷ pairs))

  unfoldable pub average_talk_time_seconds : ℕ → Action F
  average_talk_time_seconds campaign_id = do
    documents ← query e λ n db.
        e.calls_db.aggregate n
          (λ d. d.campaign_id == campaign_id && is_some d.answered_at && is_some d.ended_at)
          db.calls
    pure (
        average_in (λ average. e.floats.div average (e.floats.of_ℕ 1000))
          (time_pairs (λ (d : Call). d.ended_at) (λ (d : Call). d.answered_at) documents))

  unfoldable pub average_setup_time_ms : ℕ → Action F
  average_setup_time_ms campaign_id = do
    documents ← query e λ n db.
        e.calls_db.aggregate n
          (λ d. d.campaign_id == campaign_id && is_some d.initiated_at && is_some d.ringing_at)
          db.calls
    pure (
        average_in (λ average. average)
          (time_pairs (λ (d : Call). d.ringing_at) (λ (d : Call). d.initiated_at) documents))
