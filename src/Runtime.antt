-- ===== src/Runtime.antt =====
-- What the components share of Go and of the Kubernetes types: errors, calls that may fail, string maps
-- and objects.
pub mod Errors
pub mod Exec
pub mod StringMap
pub mod Objects
pub mod Api
pub mod Sample
mod Tests
