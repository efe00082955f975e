-- ===== src/Decisions.antt =====
-- persistence/decisions.py: the pure rules that both stores share. `now` is the caller's clock read.
pub mod Lease
pub mod Fencing
pub mod Attempt
pub mod Sql
pub mod Agreement
