-- ===== src/Tests.antt =====
-- Runs of the models at concrete inputs.
pub mod Scenario
pub mod Witnesses
mod Work
pub mod Reads
mod Web
mod Sql
mod Admit
mod Channel
mod Bind
