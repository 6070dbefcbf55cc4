-- ===== src/Builder.antt =====
-- pkg/builder: controllers from typed declarations of what they watch. Events is builder_conversion.go,
-- Options builder_opts.go, Controller builder.go.
pub mod Events
pub mod Options
pub mod Controller
mod Tests
