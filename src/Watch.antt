-- ===== src/Watch.antt =====
-- pkg/reconciler/watch: watches that are set up for the objects that a controller applies (watch.go,
-- watch_opts.go), and the handlers that map their events to reconcile requests (handler.go,
-- handler_label.go).
pub mod Handler
pub mod Config
pub mod Watcher
pub mod All
mod Tests
