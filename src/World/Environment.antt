-- ===== src/World/Environment.antt =====
-- What the process is given: the clock, the database service, the telecom providers, and whatever
-- other workers do to the database between two of its requests.
use smart_dialer.Base.{ℕ, suc, List, String, Bool, Option}
use smart_dialer.Errors.{Error, Outcome}
use smart_dialer.Model.{Agent, Borrower, Call, EventDocument, Campaign}
use smart_dialer.Model.Enums.{SafetyVerdict}
use smart_dialer.Settings.{Settings, Floats}
use smart_dialer.Store.{Reply, Collection}
use smart_dialer.World.State.{Database, World, Action}

-- app/providers/base.py
pub data ProviderCallStatus : Type 0 where
  active completed failed unknown : ProviderCallStatus

pub record OriginateRequest : Type 0 where
  pub call_id : ℕ
  pub campaign_id : ℕ
  pub phone_number : String
  pub timeout_ms : ℕ

pub record OriginateResult : Type 0 where
  pub accepted : Bool
  pub latency_ms : ℕ
  pub provider_call_id : Option ℕ
  pub error_code : Option String

-- The protocol `TelecomProvider`, after a lookup by name in the registry.
pub record Providers : Type 0 where
  pub originate_call : ℕ → ℕ → OriginateRequest → Outcome OriginateResult
  pub hangup_call : ℕ → ℕ → Option ℕ → Outcome (Unit {0})
  pub get_call_status : ℕ → ℕ → ℕ → Outcome ProviderCallStatus

pub record Env (F : Type 0) : Type 0 where
  pub settings : Settings F
  pub floats : Floats F
  -- the time at each moment
  pub clock : ℕ → ℕ
  pub monotonic : ℕ → ℕ
  pub new_id : ℕ → ℕ
  pub agents_db : Collection Agent
  pub borrowers_db : Collection Borrower
  pub calls_db : Collection Call
  pub events_db : Collection EventDocument
  pub campaigns_db : Collection Campaign
  pub providers : Providers
  -- what `insert_one` answers on the two collections of decisions and on the samples of metrics,
  -- and the verdicts of a campaign's decisions, which nothing here reads otherwise
  pub decisions_db : ℕ → Reply (Unit {0})
  pub verdicts_db : ℕ → (campaign_id : ℕ) → Reply (List SafetyVerdict)
  -- `$avg` of the first time less the second, over a group that is not empty
  pub average : List (ℕ × ℕ) → F
  pub others : ℕ → Database → Database

abbrev pub answered {ℓ} : {A : Type ℓ} → Reply A → Outcome A
answered (Reply.reply a) = Outcome.ok a
answered Reply.duplicate_key = Outcome.raised Error.duplicate_key_error
answered Reply.unavailable = Outcome.raised Error.mongo_error

module _ {F : Type 0} (e : Env F) where
  -- the database as a request finds it, after what the others did
  abbrev pub arrive : World → Database
  arrive w = e.others w.moment w.db

  unfoldable pub now : Action ℕ
  now w = (Outcome.ok (e.clock w.moment), w)

  unfoldable pub monotonic_now : Action ℕ
  monotonic_now w = (Outcome.ok (e.monotonic w.moment), w)

  unfoldable pub fresh_id : Action ℕ
  fresh_id w = (Outcome.ok (e.new_id w.moment), record w { moment = suc w.moment })

  -- a request that only reads
  unfoldable pub query : {A : Type 0} → (ℕ → Database → Reply A) → Action A
  query q w =
      let db = arrive w in (answered (q w.moment db), record w { db = db; moment = suc w.moment })

  -- requests that write, one for each collection
  unfoldable pub write_agents : {A : Type 0} → (ℕ → List Agent → List Agent × Reply A) → Action A
  write_agents q w =
      let db = arrive w in
      let (docs, r) = q w.moment db.agents in
      (answered r, record w { db = record db { agents = docs }; moment = suc w.moment })

  unfoldable pub write_borrowers :
      {A : Type 0} → (ℕ → List Borrower → List Borrower × Reply A) → Action A
  write_borrowers q w =
      let db = arrive w in
      let (docs, r) = q w.moment db.borrowers in
      (answered r, record w { db = record db { borrowers = docs }; moment = suc w.moment })

  unfoldable pub write_calls : {A : Type 0} → (ℕ → List Call → List Call × Reply A) → Action A
  write_calls q w =
      let db = arrive w in
      let (docs, r) = q w.moment db.calls in
      (answered r, record w { db = record db { calls = docs }; moment = suc w.moment })

  unfoldable pub write_events :
      {A : Type 0} → (ℕ → List EventDocument → List EventDocument × Reply A) → Action A
  write_events q w =
      let db = arrive w in
      let (docs, r) = q w.moment db.events in
      (answered r, record w { db = record db { events = docs }; moment = suc w.moment })

  unfoldable pub write_campaigns :
      {A : Type 0} → (ℕ → List Campaign → List Campaign × Reply A) → Action A
  write_campaigns q w =
      let db = arrive w in
      let (docs, r) = q w.moment db.campaigns in
      (answered r, record w { db = record db { campaigns = docs }; moment = suc w.moment })

  -- a call of a provider: no request to the database, but time passes
  unfoldable pub ask : {A : Type 0} → (ℕ → Outcome A) → Action A
  ask q w = (q w.moment, record w { moment = suc w.moment })
