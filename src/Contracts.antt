-- ===== src/Contracts.antt =====
-- What single operations promise to their callers.
pub mod Rounds
pub mod Allocation
pub mod Events
pub mod Applied
pub mod Endings
pub mod Legality
pub mod Retries
pub mod Health
pub mod Tick
pub mod Reservations
