-- ===== src/Crypto.antt =====
-- rust/src/crypto.rs: the MTProto obfuscation layer.
pub mod Cipher
pub mod Tag
pub mod Secret
pub mod Handshake
pub mod Random
pub mod Relay
pub mod Session
pub mod Client
