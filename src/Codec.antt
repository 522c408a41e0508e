-- ===== src/Codec.antt =====
-- Texts that carry bytes. (frontend/src/lib/crypto.ts)
pub mod Base64
pub mod RoundTrip
pub mod Cipher
pub mod CipherRoundTrip
