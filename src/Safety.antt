-- ===== src/Safety.antt =====
-- app/safety, and the tracker of app/services/agent_availability.py
pub mod Fallback
pub mod Availability
pub mod Constraints
pub mod Controller
pub mod Limits
pub mod Evaluation
pub mod Caps
