-- ===== src/ApiKeyVault.antt =====
-- src/api_key_vault.rs: the encrypted store of the API keys.
pub mod Slots
pub mod Cipher
pub mod File
pub mod Store
