-- ===== src/Lifecycle/Moves.antt =====
-- `Moves m`: from any world, whatever the others do, the action `m` changes the database only by
-- steps of the specification. One rule for each way to build an action.
use smart_dialer.Base.{
  refl, arith, ℕ, ◌≡◌, ◌++◌, Bool, true, false, List, here, next, Star-trans, if◌then◌else◌, All,
  All-map, ◌==◌, ||_left,
}
use smart_dialer.Errors.{Error, Outcome}
use smart_dialer.Model.{
  Agent, Borrower, Call, EventDocument, Campaign, campaign_clash, agent_clash, borrower_clash,
  call_clash, event_clash,
}
use smart_dialer.Model.Enums.{CallState}
use smart_dialer.Store.{Reply, Updated-documents, Inserted-documents, IsCollection}
use smart_dialer.World.{
  Database, World, Action, Counters, Env, pure, raise, gets, count_event, continue_with, ◌>>=◌,
  attempt, answered, arrive, now, monotonic_now, set_samples, set_events_received,
  set_previous_available, OriginateSample, fresh_id, query, write_agents, write_borrowers,
  write_calls, write_events, write_campaigns, set_snapshot_available, set_peak_concurrent, ask,
}
use smart_dialer.Lifecycle.Steps.{
  RetryPolicy, AgentStep, BorrowerStep, CallStep, EventStep, CampaignStep, IsConsistent,
}
use smart_dialer.Lifecycle.Database.{
  agent, borrower, call, new_call, event, new_event, campaign, new_campaign, Reach,
}

abbrev pub retry_policy : {F : Type 0} → Env F → RetryPolicy
retry_policy e = record {
  max_attempts = e.settings.max_call_attempts;
  backoff_base_seconds = e.settings.retry_backoff_base_seconds;
}

-- What is assumed of the environment: the database service keeps its promises, and the other
-- workers change the database by steps of the specification too.
pub record IsEnv {F : Type 0} (e : Env F) : Type 0 where
  pub agents_law : IsCollection agent_clash e.agents_db
  pub borrowers_law : IsCollection borrower_clash e.borrowers_db
  pub calls_law : IsCollection call_clash e.calls_db
  pub events_law : IsCollection event_clash e.events_db
  pub campaigns_law : IsCollection campaign_clash e.campaigns_db
  pub others_law : (n : ℕ) (s : Database) → Reach (retry_policy e) s (e.others n s)

pub record Moves {A : Type 0} (policy : RetryPolicy) (m : Action A) : Type 0 where
  pub at : (w : World) → Reach policy w.db (m w).1.db

module _ {k : RetryPolicy} {A : Type 0} where
  pub Moves-pure : (a : A) → Moves k (pure a)
  unfolding pure
  Moves-pure a = record { at = λ w. here }

  pub Moves-raise : (x : Error) → Moves k (raise {A = A} x)
  unfolding raise
  Moves-raise x = record { at = λ w. here }

  pub Moves-gets : (f : World → A) → Moves k (gets f)
  unfolding gets
  Moves-gets f = record { at = λ w. here }

  pub Moves-if : (b : Bool) (m n : Action A) → Moves k m → Moves k n → Moves k (if b then m else n)
  Moves-if true m n hm hn = hm
  Moves-if false m n hm hn = hn

pub Moves-count_event : {k : RetryPolicy} (f : Counters → Counters) → Moves k (count_event f)
unfolding count_event
Moves-count_event f = record { at = λ w. here }

module _ {k : RetryPolicy} {A B : Type 0} where
  Moves-continue_with :
      (r : Outcome A) (f : A → Action B) → ((a : A) → Moves k (f a)) → Moves k (continue_with r f)
  Moves-continue_with (Outcome.ok a) f h = h a
  Moves-continue_with (Outcome.raised x) f h = record { at = λ w. here }

  pub Moves-bind :
      (m : Action A) (f : A → Action B) → Moves k m → ((a : A) → Moves k (f a)) → Moves k (m >>= f)
  unfolding ◌>>=◌
  Moves-bind m f hm hf = record {
    at = λ w. Star-trans (hm.at w) ((Moves-continue_with (m w).0 f hf).at (m w).1);
  }

  Moves-continue_where :
      (Q : A → Type 0) (r : Outcome A) (f : A → Action B)
      → ((a : A) → r ≡ Outcome.ok a → Q a)
      → ((a : A) → Q a → Moves k (f a))
      → Moves k (continue_with r f)
  Moves-continue_where Q (Outcome.ok a) f q h = h a (q a refl)
  Moves-continue_where Q (Outcome.raised x) f q h = record { at = λ w. here }

  -- The rest of the block may use what is known of the first result.
  pub Moves-bind_where :
      (Q : A → Type 0) (m : Action A) (f : A → Action B)
      → Moves k m
      → ((w : World) (a : A) → (m w).0 ≡ Outcome.ok a → Q a)
      → ((a : A) → Q a → Moves k (f a))
      → Moves k (m >>= f)
  unfolding ◌>>=◌
  Moves-bind_where Q m f hm q hf = record {
    at = λ w. Star-trans (hm.at w) ((Moves-continue_where Q (m w).0 f (q w) hf).at (m w).1);
  }

  pub Moves-attempt :
      (m : Action A) (f : Outcome A → Action B)
      → Moves k m
      → ((r : Outcome A) → Moves k (f r))
      → Moves k (attempt m f)
  unfolding attempt
  Moves-attempt m f hm hf = record { at = λ w. Star-trans (hm.at w) ((hf (m w).0).at (m w).1) }

pub Moves-set_samples :
    {k : RetryPolicy} (d : List (ℕ × List OriginateSample)) → Moves k (set_samples d)
unfolding set_samples
Moves-set_samples d = record { at = λ w. here }

pub Moves-set_events_received :
    {k : RetryPolicy} (d : List (ℕ × ℕ)) → Moves k (set_events_received d)
unfolding set_events_received
Moves-set_events_received d = record { at = λ w. here }

pub Moves-set_previous_available :
    {k : RetryPolicy} (d : List (ℕ × ℕ)) → Moves k (set_previous_available d)
unfolding set_previous_available
Moves-set_previous_available d = record { at = λ w. here }

pub Moves-set_snapshot_available :
    {k : RetryPolicy} (d : List (ℕ × ℕ)) → Moves k (set_snapshot_available d)
unfolding set_snapshot_available
Moves-set_snapshot_available d = record { at = λ w. here }

pub Moves-set_peak_concurrent :
    {k : RetryPolicy} (d : List (ℕ × ℕ)) → Moves k (set_peak_concurrent d)
unfolding set_peak_concurrent
Moves-set_peak_concurrent d = record { at = λ w. here }

pub ruleset moves_rules = (
  Moves-pure, Moves-raise, Moves-gets, Moves-if, Moves-count_event, Moves-set_samples,
  Moves-set_events_received, Moves-set_previous_available, Moves-set_snapshot_available,
  Moves-set_peak_concurrent, Moves-bind, Moves-attempt,
)

-- A call that no index keeps apart from the others has a key of its own.
new_id :
    (c : Call) (docs : List Call)
    → All (λ x. call_clash c x ≡ false) docs
    → All (λ x. (c.id == x.id) ≡ false) docs
new_id c = All-map _ _ (λ x h. ||_left _ _ (||_left _ _ h))

answered-ok : {A : Type 0} (r : Reply A) (a : A) → answered r ≡ Outcome.ok a → r ≡ Reply.reply a
answered-ok (Reply.reply b) a h = ground arith
answered-ok Reply.duplicate_key a h = cc
answered-ok Reply.unavailable a h = cc

-- What a query returned is what the service replied.
pub query-ok :
    {F A : Type 0} (e : Env F) (q : ℕ → Database → Reply A) (w : World) (a : A)
    → (query e q w).0 ≡ Outcome.ok a
    → q w.moment (arrive e w) ≡ Reply.reply a
unfolding query
query-ok e q w a h = answered-ok _ a h

module _ {F : Type 0} (e : Env F) (law : IsEnv e) where
  abbrev k : RetryPolicy
  k = retry_policy e

  pub Moves-now : Moves k (now e)
  unfolding now
  Moves-now = record { at = λ w. here }

  pub Moves-monotonic_now : Moves k (monotonic_now e)
  unfolding monotonic_now
  Moves-monotonic_now = record { at = λ w. here }

  pub Moves-fresh_id : Moves k (fresh_id e)
  unfolding fresh_id
  Moves-fresh_id = record { at = λ w. here }

  pub Moves-ask : {A : Type 0} (q : ℕ → Outcome A) → Moves k (ask e q)
  unfolding ask
  Moves-ask q = record { at = λ w. here }

  pub Moves-query : {A : Type 0} (q : ℕ → Database → Reply A) → Moves k (query e q)
  unfolding query
  Moves-query q = record { at = λ w. law.others_law w.moment w.db }

  -- A write moves if each update that passes the filter is a step of the document.
  pub Moves-write_agents :
      (f : Agent → Bool) (u : Agent → Agent)
      → ((d : Agent) → f d ≡ true → AgentStep d (u d))
      → Moves k (write_agents e (λ n. e.agents_db.find_one_and_update n f u))
  unfolding write_agents
  Moves-write_agents f u h = record {
    at = λ w.
        let db = e.others w.moment w.db in
        Star-trans (law.others_law w.moment w.db) (
          Updated-documents agent_clash (λ docs. Reach k db (record db { agents = docs })) here
            (λ left d right at fit. next here (agent left d (u d) right at (h d fit)))
            (law.agents_law.update_law w.moment f u db.agents));
  }

  pub Moves-write_borrowers :
      (f : Borrower → Bool) (u : Borrower → Borrower)
      → ((d : Borrower) → f d ≡ true → BorrowerStep k d (u d))
      → Moves k (write_borrowers e (λ n. e.borrowers_db.find_one_and_update n f u))
  unfolding write_borrowers
  Moves-write_borrowers f u h = record {
    at = λ w.
        let db = e.others w.moment w.db in
        Star-trans (law.others_law w.moment w.db) (
          Updated-documents borrower_clash (λ docs. Reach k db (record db { borrowers = docs }))
            here (λ left d right at fit. next here (borrower left d (u d) right at (h d fit)))
            (law.borrowers_law.update_law w.moment f u db.borrowers));
  }

  pub Moves-write_calls :
      (f : Call → Bool) (u : Call → Call)
      → ((d : Call) → f d ≡ true → CallStep d (u d))
      → Moves k (write_calls e (λ n. e.calls_db.find_one_and_update n f u))
  unfolding write_calls
  Moves-write_calls f u h = record {
    at = λ w.
        let db = e.others w.moment w.db in
        Star-trans (law.others_law w.moment w.db) (
          Updated-documents call_clash (λ docs. Reach k db (record db { calls = docs })) here
            (λ left d right at fit. next here (call left d (u d) right at (h d fit)))
            (law.calls_law.update_law w.moment f u db.calls));
  }

  pub Moves-write_events :
      (f : EventDocument → Bool) (u : EventDocument → EventDocument)
      → ((d : EventDocument) → f d ≡ true → EventStep d (u d))
      → Moves k (write_events e (λ n. e.events_db.find_one_and_update n f u))
  unfolding write_events
  Moves-write_events f u h = record {
    at = λ w.
        let db = e.others w.moment w.db in
        Star-trans (law.others_law w.moment w.db) (
          Updated-documents event_clash (λ docs. Reach k db (record db { events = docs })) here
            (λ left d right at fit. next here (event left d (u d) right at (h d fit)))
            (law.events_law.update_law w.moment f u db.events));
  }

  pub Moves-insert_call :
      (c : Call)
      → IsConsistent c
      → c.state ≡ CallState.queued
      → Moves k (write_calls e (λ n. e.calls_db.insert_one n c))
  unfolding write_calls
  Moves-insert_call c consistent queued = record {
    at = λ w.
        let db = e.others w.moment w.db in
        Star-trans (law.others_law w.moment w.db) (
          Inserted-documents call_clash (λ docs. Reach k db (record db { calls = docs })) here
            (λ left right at free.
              next here
                (new_call left c right at (new_id c (left ++ right) free) consistent queued))
            (law.calls_law.insert_law w.moment c db.calls));
  }

  pub Moves-insert_event :
      (d : EventDocument) → Moves k (write_events e (λ n. e.events_db.insert_one n d))
  unfolding write_events
  Moves-insert_event d = record {
    at = λ w.
        let db = e.others w.moment w.db in
        Star-trans (law.others_law w.moment w.db) (
          Inserted-documents event_clash (λ docs. Reach k db (record db { events = docs })) here
            (λ left right at free. next here (new_event left d right at free))
            (law.events_law.insert_law w.moment d db.events));
  }

  pub Moves-write_campaigns :
      (f : Campaign → Bool) (u : Campaign → Campaign)
      → ((d : Campaign) → f d ≡ true → CampaignStep d (u d))
      → Moves k (write_campaigns e (λ n. e.campaigns_db.find_one_and_update n f u))
  unfolding write_campaigns
  Moves-write_campaigns f u h = record {
    at = λ w.
        let db = e.others w.moment w.db in
        Star-trans (law.others_law w.moment w.db) (
          Updated-documents campaign_clash (λ docs. Reach k db (record db { campaigns = docs }))
            here (λ left d right at fit. next here (campaign left d (u d) right at (h d fit)))
            (law.campaigns_law.update_law w.moment f u db.campaigns));
  }

  pub Moves-insert_campaign :
      (d : Campaign) → Moves k (write_campaigns e (λ n. e.campaigns_db.insert_one n d))
  unfolding write_campaigns
  Moves-insert_campaign d = record {
    at = λ w.
        let db = e.others w.moment w.db in
        Star-trans (law.others_law w.moment w.db) (
          Inserted-documents campaign_clash (λ docs. Reach k db (record db { campaigns = docs }))
            here (λ left right at free. next here (new_campaign left d right at free))
            (law.campaigns_law.insert_law w.moment d db.campaigns));
  }
