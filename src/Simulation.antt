-- ===== src/Simulation.antt =====
-- app/simulation: simulated agents, injected faults, and the checker of invariants.
pub mod Agents
pub mod Faults
pub mod Invariants
pub mod Distinct
