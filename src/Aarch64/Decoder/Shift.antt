-- ===== src/Aarch64/Decoder/Shift.antt =====
-- reil/aarch64/decoder.h: shifts of an operand.
use reil.Base.{ℕ}

pub data ShiftType : Type 0 where
  none lsl lsr asr rol ror : ShiftType

pub record Shift : Type 0 where
  pub type : ShiftType
  pub count : ℕ
