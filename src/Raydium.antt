-- ===== src/Raydium.antt =====
-- src/raydium_v4.rs and src/raydium_cpmm.rs: the swap quotes and the instruction builders of the
-- two Raydium pools. The numbers are u64 and wrap, as in a release build.
pub mod V4
pub mod Cpmm
pub mod Quote
