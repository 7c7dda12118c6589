-- ===== src/Aarch64/Decoder/Valid/Memory.antt =====
-- The operands of loads and stores are in range.
use reil.Base.{ℕ, Bool, true, false, if◌then◌else◌}
use reil.Aarch64.Decoder.Types.{Opcode, Operand}
use reil.Aarch64.Decoder.Valid.{IsOperand, IsValid, AreOperands}
use reil.Aarch64.Decoder.Valid.Rules.{rules}
use reil.Aarch64.Decoder.Valid.Vectors.{
  simd_load_literal-IsValid, simd_load_store_pair-IsValid,
  simd_load_store_unscaled_immediate-IsValid, simd_load_store_register_offset-IsValid,
  simd_load_store_unsigned_immediate-IsValid,
}
use reil.Aarch64.Decoder.Exclusive.{ExclusiveKind, exclusive_operands, load_store_exclusive}
use reil.Aarch64.Decoder.LoadStore.{
  load_store_opcode, load_store, load_literal, load_store_pair, load_store_unscaled_immediate,
  load_store_register_offset, load_store_unsigned_immediate,
}

if_second-IsOperand :
    (c : Bool) (a b : Opcode × Operand)
    → IsOperand a.1
    → IsOperand b.1
    → IsOperand (if c then a else b).1
if_second-IsOperand true a b ha hb = ha
if_second-IsOperand false a b ha hb = hb

load_store_opcode-IsOperand : (opcode : ℕ) → IsOperand (load_store_opcode opcode).1
unfolding load_store_opcode
load_store_opcode-IsOperand opcode = search (rules, if_second-IsOperand) depth 20

exclusive_operands-AreOperands :
    (kind : ExclusiveKind) (opcode size : ℕ) (address : Operand)
    → IsOperand address
    → AreOperands (exclusive_operands kind opcode size address)
exclusive_operands-AreOperands ExclusiveKind.store_exclusive opcode size address h =
    search rules depth 20
exclusive_operands-AreOperands ExclusiveKind.store_exclusive_pair opcode size address h =
    search rules depth 20
exclusive_operands-AreOperands ExclusiveKind.load_pair opcode size address h = search rules depth 20
exclusive_operands-AreOperands ExclusiveKind.swap opcode size address h = search rules depth 20
exclusive_operands-AreOperands ExclusiveKind.other opcode size address h = search rules depth 20

pub load_literal-IsValid : (opcode : ℕ) → IsValid (load_literal opcode)
unfolding load_literal
load_literal-IsValid opcode = search (rules, load_store_opcode-IsOperand) depth 40 fits 9000

pub load_store_pair-IsValid : (opcode : ℕ) → IsValid (load_store_pair opcode)
unfolding load_store_pair
load_store_pair-IsValid opcode = search (rules, load_store_opcode-IsOperand) depth 40 fits 9000

pub load_store_unscaled_immediate-IsValid :
    (opcode : ℕ) → IsValid (load_store_unscaled_immediate opcode)
unfolding load_store_unscaled_immediate
load_store_unscaled_immediate-IsValid opcode =
    search (rules, load_store_opcode-IsOperand) depth 40 fits 9000

pub load_store_register_offset-IsValid : (opcode : ℕ) → IsValid (load_store_register_offset opcode)
unfolding load_store_register_offset
load_store_register_offset-IsValid opcode =
    search (rules, load_store_opcode-IsOperand) depth 40 fits 9000

pub load_store_unsigned_immediate-IsValid :
    (opcode : ℕ) → IsValid (load_store_unsigned_immediate opcode)
unfolding load_store_unsigned_immediate
load_store_unsigned_immediate-IsValid opcode =
    search (rules, load_store_opcode-IsOperand) depth 40 fits 9000

pub load_store_exclusive-IsValid : (opcode : ℕ) → IsValid (load_store_exclusive opcode)
unfolding load_store_exclusive
load_store_exclusive-IsValid opcode =
    search (rules, exclusive_operands-AreOperands) depth 40 fits 9000

pub load_store-IsValid : (opcode : ℕ) → IsValid (load_store opcode)
unfolding load_store
load_store-IsValid opcode =
    search
      (
        rules, simd_load_literal-IsValid, simd_load_store_pair-IsValid,
        simd_load_store_unscaled_immediate-IsValid, simd_load_store_register_offset-IsValid,
        simd_load_store_unsigned_immediate-IsValid, load_literal-IsValid, load_store_pair-IsValid,
        load_store_unscaled_immediate-IsValid, load_store_register_offset-IsValid,
        load_store_unsigned_immediate-IsValid, load_store_exclusive-IsValid,
      )
      depth 40 fits 9000
