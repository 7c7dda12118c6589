-- ===== src/Aarch64/Decoder/Extend.antt =====
-- reil/aarch64/decoder.h: extensions of a register.
use reil.Base.{ℕ}

pub data ExtendType : Type 0 where
  none uxtb uxth uxtw uxtx lsl sxtb sxth sxtw sxtx : ExtendType

pub record Extend : Type 0 where
  pub type : ExtendType
  pub count : ℕ
