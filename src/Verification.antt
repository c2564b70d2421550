-- ===== src/Verification.antt =====
-- The package `verification`: trust policies, trusted identities and verification levels.
pub mod Levels
pub mod Store
pub mod Names
pub mod Scopes
pub mod Policy
pub mod Selection
pub mod Identity
mod Tests
