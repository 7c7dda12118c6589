-- ===== src/Disassembler/Aarch64/Complete/Systems.antt =====
-- The operands of system instructions are as many as the disassembler reads.
use reil.Base.{ℕ}
use reil.Disassembler.Aarch64.Complete.{Suits, IsComplete}
use reil.Disassembler.Aarch64.Complete.Rules.{rules}
use reil.Aarch64.Decoder.System.{system}

pub system-IsComplete : (opcode : ℕ) → IsComplete (system opcode)
unfolding system Suits
system-IsComplete opcode = search rules depth 40 fits 9000
