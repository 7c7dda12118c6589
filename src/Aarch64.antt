-- ===== src/Aarch64.antt =====
-- reil/aarch64/: the AArch64 instruction set.
pub mod Decoder
