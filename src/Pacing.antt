-- ===== src/Pacing.antt =====
-- app/pacing: how many calls a tick asks for.
pub mod AnswerRate
pub mod Snapshot
pub mod Engine
pub mod Bounds
pub mod Scaling
