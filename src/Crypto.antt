-- ===== src/Crypto.antt =====
-- internal/crypto: padding, CBC over parts, key derivation and the two streaming formats.
pub mod Padding
pub mod Cbc
pub mod Streaming
mod Tests
