-- ===== src/Resources.antt =====
-- pkg/resources: metadata of objects (meta.go), kinds and conversions (util.go), server-side apply
-- (apply.go) and the applier that skips what has not changed (applier.go).
pub mod Meta
pub mod Util
pub mod Apply
pub mod Applier
mod Tests
