-- ===== src/Web.antt =====
-- The OAuth states and browser sessions of persistence/fake.py: `InMemoryWebSessionStore` and the change of
-- the local administrator's password.
pub mod Contracts
pub mod OAuth
pub mod Sessions
pub mod Calls
pub mod Cleanup
pub mod Invariant
pub mod Outcomes
pub mod Served
pub mod SingleUse
pub mod Revocation
pub mod Ends
pub mod RoundTrip
pub mod Domains
