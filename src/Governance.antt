-- ===== src/Governance.antt =====
-- The checks of governance/ that stand between a plan and its execution.
pub mod Characters
pub mod Scanner
pub mod Lexemes
pub mod Subscans
pub mod Quotes
pub mod Branches
pub mod Tiling
pub mod Runs
pub mod SqlTokens
pub mod Utf8
pub mod Slices
pub mod Accepted
pub mod Bounds
pub mod Complete
pub mod Parses
pub mod Found
