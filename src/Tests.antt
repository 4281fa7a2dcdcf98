-- ===== src/Tests.antt =====
-- Sample inputs, runs of the model on them, and the theorems applied to them.
mod Samples
mod Acyclic
mod Identity
mod Planning
mod Runs
mod Paths
mod Affected
mod Validation
mod Cache
mod Canonical
mod Execution
