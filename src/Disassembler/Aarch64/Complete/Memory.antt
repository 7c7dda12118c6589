-- ===== src/Disassembler/Aarch64/Complete/Memory.antt =====
-- Loads and stores have the operands that the disassembler reads.
use reil.Base.{ℕ, arith, List}
use reil.Disassembler.Aarch64.Complete.{Suits, IsComplete}
use reil.Disassembler.Aarch64.Complete.Rules.{rules}
use reil.Aarch64.Decoder.Types.{Operand}
use reil.Disassembler.Aarch64.Complete.Vectors.{
  simd_load_literal-IsComplete, simd_load_store_pair-IsComplete,
  simd_load_store_unscaled_immediate-IsComplete, simd_load_store_register_offset-IsComplete,
  simd_load_store_unsigned_immediate-IsComplete,
}
use reil.Aarch64.Decoder.Exclusive.{exclusive_opcode, load_store_exclusive}
use reil.Aarch64.Decoder.LoadStore.{
  load_store_opcode, unscaled_opcode, unprivileged_opcode, load_store, load_literal,
  load_store_pair, load_store_unscaled_immediate, load_store_register_offset,
  load_store_unsigned_immediate,
}

module _ (operands : List Operand) where
  plain-Suits : (opcode : ℕ) → Suits (load_store_opcode opcode).0 operands
  unfolding Suits load_store_opcode
  plain-Suits opcode = ground arith

  unscaled-Suits : (opcode : ℕ) → Suits (unscaled_opcode (load_store_opcode opcode).0) operands
  unfolding Suits load_store_opcode
  unscaled-Suits opcode = ground arith

  unprivileged-Suits :
      (opcode : ℕ) → Suits (unprivileged_opcode (load_store_opcode opcode).0) operands
  unfolding Suits load_store_opcode
  unprivileged-Suits opcode = ground arith

  exclusive-Suits : (n size : ℕ) → Suits (exclusive_opcode n size).0 operands
  unfolding Suits
  exclusive-Suits n size = ground arith

pub load_literal-IsComplete : (opcode : ℕ) → IsComplete (load_literal opcode)
unfolding load_literal Suits
load_literal-IsComplete opcode =
    search (rules, plain-Suits, unscaled-Suits, unprivileged-Suits) depth 40 fits 9000

pub load_store_pair-IsComplete : (opcode : ℕ) → IsComplete (load_store_pair opcode)
unfolding load_store_pair Suits
load_store_pair-IsComplete opcode =
    search (rules, plain-Suits, unscaled-Suits, unprivileged-Suits) depth 40 fits 9000

pub load_store_unscaled_immediate-IsComplete :
    (opcode : ℕ) → IsComplete (load_store_unscaled_immediate opcode)
unfolding load_store_unscaled_immediate Suits
load_store_unscaled_immediate-IsComplete opcode =
    search (rules, plain-Suits, unscaled-Suits, unprivileged-Suits) depth 40 fits 9000

pub load_store_register_offset-IsComplete :
    (opcode : ℕ) → IsComplete (load_store_register_offset opcode)
unfolding load_store_register_offset Suits
load_store_register_offset-IsComplete opcode =
    search (rules, plain-Suits, unscaled-Suits, unprivileged-Suits) depth 40 fits 9000

pub load_store_unsigned_immediate-IsComplete :
    (opcode : ℕ) → IsComplete (load_store_unsigned_immediate opcode)
unfolding load_store_unsigned_immediate Suits
load_store_unsigned_immediate-IsComplete opcode =
    search (rules, plain-Suits, unscaled-Suits, unprivileged-Suits) depth 40 fits 9000

pub load_store_exclusive-IsComplete : (opcode : ℕ) → IsComplete (load_store_exclusive opcode)
unfolding load_store_exclusive Suits
load_store_exclusive-IsComplete opcode = search (rules, exclusive-Suits) depth 40 fits 9000

pub load_store-IsComplete : (opcode : ℕ) → IsComplete (load_store opcode)
unfolding load_store Suits
load_store-IsComplete opcode =
    search
      (
        rules, simd_load_literal-IsComplete, simd_load_store_pair-IsComplete,
        simd_load_store_unscaled_immediate-IsComplete, simd_load_store_register_offset-IsComplete,
        simd_load_store_unsigned_immediate-IsComplete, load_literal-IsComplete,
        load_store_pair-IsComplete, load_store_unscaled_immediate-IsComplete,
        load_store_register_offset-IsComplete, load_store_unsigned_immediate-IsComplete,
        load_store_exclusive-IsComplete,
      )
      depth 40 fits 9000
