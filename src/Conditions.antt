-- ===== src/Conditions.antt =====
-- pkg/conditions: the conditions of an object's status (types.go, conditions.go, conditions_opts.go,
-- helpers.go). The functions of `k8s.io/apimachinery/pkg/api/meta` that the package calls are the
-- parameter `MetaApi`. `Manager` is manager.go.
pub mod Api
pub mod Options
pub mod Accessors
pub mod Set
pub mod Find
pub mod Laws
pub mod Manager
pub mod Sample
mod Tests
