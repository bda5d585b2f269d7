-- ===== src/Api.antt =====
-- internal/api: the HTTP server, what it admits, and how it runs contextq.
pub mod Args
pub mod Runner
pub mod Bearer
pub mod Execute
pub mod Routes
pub mod Slots
