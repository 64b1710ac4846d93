-- ===== src/Wire.antt =====
-- Package wire.
pub mod Encoding
pub mod Cursor
pub mod Layout
pub mod Crypto
pub mod Method
pub mod Span
pub mod Grant
pub mod Envelope
pub mod Intent
pub mod Refusal
pub mod Cert
pub mod Validate
pub mod GrantChain
pub mod Transport
pub mod Noise
