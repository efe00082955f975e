-- ===== src/Admission.antt =====
-- The admission of a plan step: governance/step_admission.py and what it calls.
pub mod Contracts
pub mod Effects
pub mod Policy
pub mod Guards
pub mod Binding
pub mod Query
pub mod Steps
pub mod Conditions
pub mod Confirmed
pub mod Admitted
pub mod Quiet
pub mod Refusals
