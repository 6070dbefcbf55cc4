-- ===== src/Builder/Events.antt =====
-- pkg/builder/builder_conversion.go: events of unstructured objects for code that wants typed ones.
pub mod Convert
pub mod Wrap
pub mod Mapper
