-- ===== src/RugGuard.antt =====
-- src/rug_guard.rs: the parsers of mint, fee and metadata accounts, the two screens of a token, and
-- the blacklist.
pub mod Parsers
pub mod Screen
