-- ===== src/Remote.antt =====
-- internal/remote, and what internal/app/remote.go builds on it: commands on the server's host.
pub mod Shell
pub mod Ssh
pub mod Binary
