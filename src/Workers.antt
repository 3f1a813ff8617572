-- ===== src/Workers.antt =====
-- app/workers
pub mod Recovery
pub mod WrapUp
pub mod Dialer
pub mod Campaigns
