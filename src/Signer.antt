-- ===== src/Signer.antt =====
-- The signers of cli/src/signer, and what they sign.
pub mod Canonical
pub mod Base32
pub mod Totp
pub mod Software
pub mod Keychain
