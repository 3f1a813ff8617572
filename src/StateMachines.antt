-- ===== src/StateMachines.antt =====
-- app/state_machines
pub mod Agent
pub mod Call
