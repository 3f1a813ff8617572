-- ===== src/Handlers.antt =====
-- The handlers change the database only by steps of the specification, whatever the others do.
pub mod Gate
pub mod Reservation
pub mod Events
pub mod Allocation
pub mod Recovery
pub mod Agents
pub mod Snapshot
pub mod Dialing
pub mod Campaigns
pub mod Metrics
pub mod Simulation
