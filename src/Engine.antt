-- ===== src/Engine.antt =====
-- src/engine.rs: the scheduler, the per-call orchestration, and how a call is finalized.
pub mod Gates
pub mod WrapUp
pub mod Loop
pub mod Finish
pub mod Hub
pub mod RunCall
pub mod Scheduler
