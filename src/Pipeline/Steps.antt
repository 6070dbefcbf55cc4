-- ===== src/Pipeline/Steps.antt =====
-- pipeline.go: the steps that a reconcile run is made of.
pub mod Ownership
pub mod Actions
pub mod Entries
pub mod Cleanup
pub mod Outcome
