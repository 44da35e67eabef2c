-- ===== src/Cbor.antt =====
-- The CBOR subset of firmware/core/cborencode.c and firmware/core/cbor_decode.c.
pub mod Encode
pub mod Decode
pub mod Lengths
pub mod Header
pub mod RoundTrip
pub mod Bounds
pub mod Region
pub mod Args
pub mod Nested
pub mod Fields
mod Tests
