-- ===== src/Lib.antt =====
-- Smart Dialer: a dialer for call centres that reserves an agent and a borrower, places a call
-- with a telecom provider, and follows the call by the provider's events, while a safety
-- controller limits the calls and a recovery worker repairs what crashed workers leave behind.
-- Several workers share one MongoDB; they have no lock, but atomic updates of one document.
--
-- Base, Errors, Model: shared helpers; what a coroutine may raise; the documents and enumerations
--   of app/models, with the unique indexes of app/db_indexes.py. An identifier is a number, and
--   so is a time, in milliseconds.
-- StateMachines: app/state_machines, the tables of transitions of agents and calls.
-- Settings: the part of app/config.py that the modelled code reads. Floats are a parameter.
--   Settings.Doubles has what is relied on of them where a theorem says so: a number below 2^53 is
--   exact, and rounding keeps the order. No law of floats is assumed elsewhere. No setting is
--   negative.
-- Store: the requests to MongoDB, and the law that its documentation gives: an update of one
--   document is atomic, a unique index is enforced, a query returns documents that match. An
--   answer may be an error, before or after the write.
-- World: the database, the state that a process keeps in memory, and a coroutine as an action on
--   both that returns or raises. `Env` has the settings, the clock, the database service, the
--   providers, and `others`: what the other workers do to the database before each request of
--   this one. So every request is a point where the workers interleave.
-- Repositories: app/repositories, each operation with its filter and its update.
-- Services: app/services: provider health, the retry gate, reservation, the event processor and
--   the call allocator.
-- Safety: app/safety and app/services/agent_availability.py.
-- Pacing: app/pacing: the snapshot, the answer rates and the request of a tick. A calculation that
--   raises is an Option, and requests no call.
-- Dialers: `tick` of app/dialers/base.py, and the two configurations of app/dialers.
-- Workers: app/workers: the passes of the dialer and of the recovery, the end of wrap-ups, the
--   agents' actions of app/api/routes_agents.py and the operators' of app/api/routes_campaigns.py.
-- Metrics: app/metrics: utilization, a campaign's metrics, and the sampler.
-- Simulation: of app/simulation, the simulated agents, the faults that go through the database, and
--   the checker of invariants.
-- Providers: app/providers/mock_base.py, with chance and time as parameters. Providers.Mock is what
--   such a provider keeps; Providers.Following is what a script's events do to their call's document
--   by the tests of the event processor. For the rest of the program the providers are a parameter.
-- System: the jobs of a worker, in any order and number.
-- Lifecycle: the specification that the code refines. Lifecycle.Steps says how one document may
--   change, Lifecycle.Database how the database may, Lifecycle.History what any number of such
--   steps keeps. Lifecycle.Moves has one rule for each way to build a coroutine, and
--   Lifecycle.Agents, Borrowers and Calls have one for each operation of a repository.
-- Handlers: the services and workers stay within the specification, by those rules.
-- Contracts: what single operations promise; Contracts.Rounds spells out a round of `allocate`.
-- Examples: a database in memory that keeps the law, a worker's environment on it, and the results
--   at concrete inputs.
--
-- The loops of the source run over a list or a range and are structural recursion, so nothing
-- here needs fuel; `allocate` recurses on the number of rounds that are approved.
--
-- Not modelled: the runner, the timeline and the scenarios of the simulation, the rates of the two
-- mock providers and their registry, the seeding of demo data, the routes that only list documents,
-- the dashboard, the load tests and the scripts; the tasks that repeat a worker's passes for ever;
-- log lines and explanations. A provider that is not registered is not modelled, and neither is an
-- identifier with a colon in it.
pub mod Base
pub mod Errors
pub mod Model
pub mod StateMachines
pub mod Settings
pub mod Store
pub mod World
pub mod Repositories
pub mod Lifecycle
pub mod Services
pub mod Safety
pub mod Workers
pub mod Metrics
pub mod Pacing
pub mod Dialers
pub mod Handlers
pub mod Contracts
pub mod Providers
pub mod Simulation
pub mod System
pub mod Examples
