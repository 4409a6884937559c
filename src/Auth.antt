-- ===== src/Auth.antt =====
-- internal/auth: which credentials a run uses (binding.go), and how it keeps them (cache.go).
pub mod Binding
pub mod Synced
pub mod Scope
pub mod Conflict
pub mod Cache
mod Tests
