-- ===== src/Security.antt =====
-- The secrets of the backend: backend/src/security. AES-256-GCM and SHA-256 of node:crypto are
-- parameters; the Base64 text of bytes stands for the bytes.
pub mod Cipher
pub mod Auth
