-- ===== src/Namespace.antt =====
-- internal/namespace/store.go: namespaces, their access keys, and the files that hold both.
pub mod Data
pub mod Labels
pub mod Tokens
pub mod Dirs
pub mod Atomic
pub mod Keys
pub mod Store
pub mod Init
pub mod Listing
pub mod Roster
pub mod Spec
