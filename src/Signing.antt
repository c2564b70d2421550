-- ===== src/Signing.antt =====
-- The packages notation, plugin and signature/jws: how an artifact is signed through a plugin.
pub mod Algorithms
pub mod Metadata
pub mod Errors
pub mod Config
pub mod Certificates
pub mod Messages
pub mod Calls
pub mod Library
pub mod Signer
pub mod Timestamps
pub mod Verifier
pub mod Builtin
pub mod Samples
mod Tests
mod SignerTests
mod VerifierTests
mod BuiltinTests
