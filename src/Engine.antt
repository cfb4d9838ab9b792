-- ===== src/Engine.antt =====
-- src/engine/engine.c: the event-driven simulation engine, generic over a policy.
pub mod State
pub mod Step
pub mod Dispatch
pub mod Run
pub mod Timeline
pub mod Census
