-- ===== src/Disassembler/Aarch64/Complete/Vectors.antt =====
-- The operands of loads and stores of SIMD registers are as many as the disassembler reads.
use reil.Base.{ℕ}
use reil.Disassembler.Aarch64.Complete.{Suits, IsComplete}
use reil.Disassembler.Aarch64.Complete.Rules.{rules}
use reil.Aarch64.Decoder.Simd.{
  simd_load_literal, simd_load_store_pair, simd_load_store_unscaled_immediate,
  simd_load_store_register_offset, simd_load_store_unsigned_immediate,
}

pub simd_load_literal-IsComplete : (opcode : ℕ) → IsComplete (simd_load_literal opcode)
unfolding simd_load_literal Suits
simd_load_literal-IsComplete opcode = search rules depth 40 fits 9000

pub simd_load_store_pair-IsComplete : (opcode : ℕ) → IsComplete (simd_load_store_pair opcode)
unfolding simd_load_store_pair Suits
simd_load_store_pair-IsComplete opcode = search rules depth 40 fits 9000

pub simd_load_store_unscaled_immediate-IsComplete :
    (opcode : ℕ) → IsComplete (simd_load_store_unscaled_immediate opcode)
unfolding simd_load_store_unscaled_immediate Suits
simd_load_store_unscaled_immediate-IsComplete opcode = search rules depth 40 fits 9000

pub simd_load_store_register_offset-IsComplete :
    (opcode : ℕ) → IsComplete (simd_load_store_register_offset opcode)
unfolding simd_load_store_register_offset Suits
simd_load_store_register_offset-IsComplete opcode = search rules depth 40 fits 9000

pub simd_load_store_unsigned_immediate-IsComplete :
    (opcode : ℕ) → IsComplete (simd_load_store_unsigned_immediate opcode)
unfolding simd_load_store_unsigned_immediate Suits
simd_load_store_unsigned_immediate-IsComplete opcode = search rules depth 40 fits 9000
