-- ===== src/Config.antt =====
-- pkg/config: a configuration struct filled from defaults, files, environment variables and flags.
-- Fields is what reflection says of the struct, Flags is flags.go and registry.go of pkg/config/flags.
pub mod Fields
pub mod Flags
pub mod Sources
pub mod Loader
mod Tests
