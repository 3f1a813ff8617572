-- ===== src/Metrics.antt =====
-- app/metrics: what is reported of a campaign.
pub mod Utilization
pub mod Accounts
pub mod Campaign
pub mod Balance
