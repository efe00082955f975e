-- ===== src/Contracts.antt =====
-- contracts/ and the data of persistence/store.py: enumerations, records and closed results.
pub mod Enums
pub mod Json
pub mod Platform
pub mod Submission
pub mod Task
pub mod Steps
pub mod Commands
