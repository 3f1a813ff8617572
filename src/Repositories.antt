-- ===== src/Repositories.antt =====
-- app/repositories: every operation is one request to the database, with its conditions in the
-- filter.
pub mod Leases
pub mod Agents
pub mod Borrowers
pub mod Calls
pub mod Events
pub mod Campaigns
