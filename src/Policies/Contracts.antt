-- ===== src/Policies/Contracts.antt =====
-- The heap-based and queue-based policies keep the contract that the engine relies on.
pub mod Queued
pub mod Heaped
pub mod Treaped
