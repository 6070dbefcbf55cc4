-- ===== src/Pipeline.antt =====
-- pkg/reconciler/pipeline: the reconcile loop of a controller as a pipeline of actions.
pub mod Options
pub mod Steps
pub mod Run
mod Tests
