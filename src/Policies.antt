-- ===== src/Policies.antt =====
-- src/policies: one module for each scheduling policy.
pub mod Fcfs
pub mod Rr
pub mod Sjf
pub mod Srtf
pub mod Stride
pub mod Cfs
pub mod Mlfq
pub mod Prio
pub mod Fraction
pub mod Vruntime
pub mod Contracts
pub mod Heaps
