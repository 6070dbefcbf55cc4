-- ===== src/Reconciler.antt =====
-- pkg/reconciler: requests, responses and their adapters (types.go, types_opts.go, adapter.go,
-- context.go).
pub mod Types
pub mod Adapter
mod Tests
