-- ===== src/Store.antt =====
-- persistence/fake.py: `InMemoryTaskStore`, over the shared state of persistence/memory.py.
pub mod State
pub mod Artifacts
pub mod Submit
pub mod Lease
pub mod Attempt
pub mod Steps
pub mod Read
pub mod Calls
