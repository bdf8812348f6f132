-- ===== src/Vault.antt =====
-- internal/vault: the secrets that are only ever written encrypted.
pub mod Secrets
