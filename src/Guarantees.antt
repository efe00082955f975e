-- ===== src/Guarantees.antt =====
-- What the task store guarantees its callers, whatever other calls come between theirs.
pub mod Transitions
pub mod Fencing
pub mod Attempts
pub mod Grants
pub mod Retries
pub mod Idempotence
pub mod Sql
pub mod Listings
pub mod Pages
