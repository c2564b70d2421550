-- ===== src/Encoding.antt =====
-- The package `internal/encoding/asn1`: BER in, DER out. Readers, length octets, values.
mod Bits
pub mod Reader
mod Takes
pub mod Lengths
pub mod Values
pub mod Decoding
mod Tests
