-- ===== src/Tests.antt =====
-- Concrete runs of the modelled code, and the theorems at them.
pub mod Json
pub mod Store
pub mod Api
pub mod Client
pub mod Slots
pub mod Setup
pub mod Config
pub mod Deploy
pub mod Exec
pub mod Doctor
pub mod Local
