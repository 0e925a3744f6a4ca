-- ===== src/Crypto.antt =====
-- The cryptographic layer of the library: what OpenSSL and liboqs provide (Interface), and the
-- client's own code on top of it.
pub mod Interface
pub mod Base64
pub mod ChaCha
pub mod Seal
pub mod Kem
pub mod Own
