-- ===== src/Immediate/Arith.antt =====
-- reil/immediate.cpp: `+`, `-`, `*`, `/` and `%` of `Immediate`.
pub mod Add
pub mod Mul
pub mod Div
