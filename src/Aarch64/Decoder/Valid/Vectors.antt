-- ===== src/Aarch64/Decoder/Valid/Vectors.antt =====
-- The operands of loads and stores of SIMD registers are in range.
use reil.Base.{ℕ}
use reil.Aarch64.Decoder.Valid.{IsValid}
use reil.Aarch64.Decoder.Valid.Rules.{rules}
use reil.Aarch64.Decoder.Simd.{
  simd_load_literal, simd_load_store_pair, simd_load_store_unscaled_immediate,
  simd_load_store_register_offset, simd_load_store_unsigned_immediate,
}

pub simd_load_literal-IsValid : (opcode : ℕ) → IsValid (simd_load_literal opcode)
unfolding simd_load_literal
simd_load_literal-IsValid opcode = search rules depth 40 fits 9000

pub simd_load_store_pair-IsValid : (opcode : ℕ) → IsValid (simd_load_store_pair opcode)
unfolding simd_load_store_pair
simd_load_store_pair-IsValid opcode = search rules depth 40 fits 9000

pub simd_load_store_unscaled_immediate-IsValid :
    (opcode : ℕ) → IsValid (simd_load_store_unscaled_immediate opcode)
unfolding simd_load_store_unscaled_immediate
simd_load_store_unscaled_immediate-IsValid opcode = search rules depth 40 fits 9000

pub simd_load_store_register_offset-IsValid :
    (opcode : ℕ) → IsValid (simd_load_store_register_offset opcode)
unfolding simd_load_store_register_offset
simd_load_store_register_offset-IsValid opcode = search rules depth 40 fits 9000

pub simd_load_store_unsigned_immediate-IsValid :
    (opcode : ℕ) → IsValid (simd_load_store_unsigned_immediate opcode)
unfolding simd_load_store_unsigned_immediate
simd_load_store_unsigned_immediate-IsValid opcode = search rules depth 40 fits 9000
