-- ===== src/Tests.antt =====
-- Runs of the modelled code and instances of its theorems on concrete data.
pub mod Data
pub mod Positions
pub mod Pools
pub mod Tokens
pub mod Toy
pub mod Vault
pub mod Copying
pub mod Executing
pub mod Caching
pub mod Listening
pub mod Sending
pub mod Building
pub mod Streaming
pub mod Detecting
pub mod Buying
