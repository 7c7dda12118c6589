-- ===== src/Aarch64/Decoder/Valid/Systems.antt =====
-- The operands of system instructions are in range.
use reil.Base.{ℕ}
use reil.Aarch64.Decoder.Valid.{IsValid}
use reil.Aarch64.Decoder.Valid.Rules.{rules}
use reil.Aarch64.Decoder.System.{system}

pub system-IsValid : (opcode : ℕ) → IsValid (system opcode)
unfolding system
system-IsValid opcode = search rules depth 40 fits 9000
