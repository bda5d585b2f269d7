-- ===== src/Target.antt =====
-- internal/target: the client's saved targets.
pub mod Data
pub mod Validate
pub mod Config
pub mod File
