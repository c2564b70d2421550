-- ===== src/Timestamp.antt =====
-- The packages crypto/timestamp and internal/crypto: signed data, and the tokens of a time stamping
-- authority.
pub mod Oids
pub mod Cms
pub mod Tokens
pub mod Requests
pub mod Http
mod Tests
