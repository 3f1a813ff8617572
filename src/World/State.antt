-- ===== src/World/State.antt =====
-- The database, the state that a process keeps in memory, and coroutines as actions on them.
use smart_dialer.Base.{ℕ, Bool, List}
use smart_dialer.Errors.{Error, Outcome}
use smart_dialer.Model.{Agent, Borrower, Call, EventDocument, Campaign}

pub record Database : Type 0 where
  pub agents : List Agent
  pub borrowers : List Borrower
  pub calls : List Call
  pub events : List EventDocument
  pub campaigns : List Campaign

-- `OriginateSample` of app/services/provider_health.py
pub record OriginateSample : Type 0 where
  pub recorded_at : ℕ
  pub success : Bool
  pub timed_out : Bool
  pub latency_ms : ℕ

-- app/metrics/registry.py: a counter for each name
pub record Counters : Type 0 where
  pub reservation_contention : ℕ
  pub retry_suppressed : ℕ
  pub retry_attempts : ℕ
  pub provider_failures : ℕ

-- A dictionary, by its entries. `samples` and `events_received` are the health manager's,
-- `previous_available` is the availability tracker's, `snapshot_available` the snapshot builder's,
-- and `peak_concurrent` the metrics collector's.
-- `moment` counts the requests that the process has made.
pub record World : Type 0 where
  pub db : Database
  pub samples : List (ℕ × List OriginateSample)
  pub events_received : List (ℕ × ℕ)
  pub counters : Counters
  pub previous_available : List (ℕ × ℕ)
  pub snapshot_available : List (ℕ × ℕ)
  pub peak_concurrent : List (ℕ × ℕ)
  pub moment : ℕ

-- A coroutine returns or raises; what it wrote before that stays written.
abbrev pub Action : Type 0 → Type 0
Action A = World → Outcome A × World

module _ {A : Type 0} where
  unfoldable pub pure : A → Action A
  pure a w = (Outcome.ok a, w)

  unfoldable pub raise : Error → Action A
  raise x w = (Outcome.raised x, w)

  -- reads the state of the process, not the database
  unfoldable pub gets : (World → A) → Action A
  gets f w = (Outcome.ok (f w), w)

-- changes the state that the process keeps in memory, not the database
unfoldable pub set_samples : List (ℕ × List OriginateSample) → Action (Unit {0})
set_samples samples w = (Outcome.ok tt, record w { samples = samples })

unfoldable pub set_events_received : List (ℕ × ℕ) → Action (Unit {0})
set_events_received counts w = (Outcome.ok tt, record w { events_received = counts })

unfoldable pub set_previous_available : List (ℕ × ℕ) → Action (Unit {0})
set_previous_available counts w = (Outcome.ok tt, record w { previous_available = counts })

unfoldable pub set_snapshot_available : List (ℕ × ℕ) → Action (Unit {0})
set_snapshot_available counts w = (Outcome.ok tt, record w { snapshot_available = counts })

unfoldable pub set_peak_concurrent : List (ℕ × ℕ) → Action (Unit {0})
set_peak_concurrent counts w = (Outcome.ok tt, record w { peak_concurrent = counts })

unfoldable pub count_event : (Counters → Counters) → Action (Unit {0})
count_event f w = (Outcome.ok tt, record w { counters = f w.counters })

module _ {A B : Type 0} where
  abbrev pub continue_with : Outcome A → (A → Action B) → Action B
  continue_with (Outcome.ok a) f w = f a w
  continue_with (Outcome.raised x) f w = (Outcome.raised x, w)

  infixl 5 ◌>>=◌ ◌>>◌
  unfoldable pub ◌>>=◌ : Action A → (A → Action B) → Action B
  ◌>>=◌ m f w = let (r, w') = m w in continue_with r f w'

  abbrev pub ◌>>◌ : Action A → Action B → Action B
  m >> n = m >>= λ _. n

  -- `try: m` with a handler for what it raised; `else` is the handler's `ok` case
  unfoldable pub attempt : Action A → (Outcome A → Action B) → Action B
  attempt m f w = let (r, w') = m w in f r w'
