-- ===== src/Lifecycle/History.antt =====
-- Each stored document stays stored, and what becomes of it is a sequence of steps of the
-- specification, whatever the workers do in between.
pub mod Agents
pub mod Borrowers
pub mod Calls
pub mod Campaigns
pub mod Ends
