-- ===== src/Drift.antt =====
-- internal/drift: what one drift check of a stack records and announces.
pub mod State
pub mod Settle
pub mod Errors
pub mod Episodes
pub mod Alerts
pub mod Retry
pub mod Retries
pub mod Wildcard
pub mod Glob
pub mod Filter
pub mod Noise
pub mod Pending
pub mod Durable
mod PendingTests
mod Tests
