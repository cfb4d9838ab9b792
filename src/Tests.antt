-- ===== src/Tests.antt =====
-- Runs of the model at concrete inputs, and the theorems of the development at inputs that meet
-- their hypotheses.
mod Inputs
mod CommandLine
mod Lengths
mod Priorities
mod PriorityRuns
pub mod Samples
mod Schedules
mod Engines
mod Utilities
mod Policies
