-- ===== src/Hierarchical.antt =====
-- pkg/hierarchical: child clusters with a cache and a lifecycle of their own. Cache is cache.go, Lifecycle
-- lifecycle.go.
pub mod Cache
pub mod Lifecycle
pub mod Cluster
