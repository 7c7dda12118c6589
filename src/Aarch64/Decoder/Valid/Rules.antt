-- ===== src/Aarch64/Decoder/Valid/Rules.antt =====
-- The rules by which the operands of an instruction are in range.
use reil.Aarch64.Decoder.Fields.{and_ones}
use reil.Base.{zero, ◌/◌, ◌≡◌}
use reil.Aarch64.Decoder.Types.{Extend, ExtendType, name_pc}
use reil.Base.{ℕ, suc, ◌+◌, ◌-◌, ◌*◌, ◌^◌, ◌≤◌, ◌<◌, arith, if◌then◌else◌, true, false, Bool}
use reil.Base.{ltb}
use reil.Aarch64.Decoder.Types.{imm, Register, Operand, SystemRegister, Immediate, Shift, ShiftType}
use reil.Aarch64.Decoder.Bits.{bits, bit, x, x_or_sp, v, operand_size}
use reil.Aarch64.Decoder.Valid.{
  IsRegister, IsImmediate, IsShift, IsExtend, IsOperand, IsValid, bits-lt, imm-IsImmediate,
  made-IsValid, if-IsValid, switch-IsValid, allocated-IsValid, none-AreOperands, more-AreOperands,
}

-- The fields of an opcode that name registers.
pub IsField : ℕ → ℕ → Type 0
IsField l m = (l ≤ m) × ((m < 32) × (2 ^ (m - l + 1) ≤ 32))

pub rd-IsField : IsField 0 4
unfolding IsField
rd-IsField = (omega arith, (omega arith, omega arith))

pub rn-IsField : IsField 5 9
unfolding IsField
rn-IsField = (omega arith, (omega arith, omega arith))

pub ra-IsField : IsField 10 14
unfolding IsField
ra-IsField = (omega arith, (omega arith, omega arith))

pub rm-IsField : IsField 16 20
unfolding IsField
rm-IsField = (omega arith, (omega arith, omega arith))

module _ (size opcode l m : ℕ) (field : IsField l m) where
  field-lt : bits opcode l m < 32
  unfolding IsField
  field-lt = bits-lt opcode l m 32 field.0 field.1.0 field.1.1

  pub x-IsOperand : IsOperand (Operand.register (x size opcode l m))
  unfolding x IsOperand
  x-IsOperand = omega (arith, field-lt)

  pub v-IsOperand : IsOperand (Operand.register (v size opcode l m))
  unfolding v IsOperand
  v-IsOperand = omega (arith, field-lt)

  pub x_or_sp-IsRegister : IsRegister (x_or_sp size opcode l m)
  unfolding x_or_sp
  x_or_sp-IsRegister = ground (arith, field-lt)

  pub x_or_sp-IsOperand : IsOperand (Operand.register (x_or_sp size opcode l m))
  unfolding IsOperand
  x_or_sp-IsOperand = x_or_sp-IsRegister

pub either-IsOperand :
    (c : Bool) (a b : Register)
    → IsOperand (Operand.register a)
    → IsOperand (Operand.register b)
    → IsOperand (Operand.register (if c then a else b))
either-IsOperand true a b ha hb = ha
either-IsOperand false a b ha hb = hb

pub if-IsOperand :
    (c : Bool) (a b : Operand) → IsOperand a → IsOperand b → IsOperand (if c then a else b)
if-IsOperand true a b ha hb = ha
if-IsOperand false a b ha hb = hb

-- The sizes of an immediate.
pub IsWidth : ℕ → Type 0
IsWidth n = n ≤ 64

pub IsWidth-8 : IsWidth 8
unfolding IsWidth
IsWidth-8 = omega arith

pub IsWidth-32 : IsWidth 32
unfolding IsWidth
IsWidth-32 = omega arith

pub IsWidth-64 : IsWidth 64
unfolding IsWidth
IsWidth-64 = omega arith

small_power : (b : ℕ) → b < 2 → 32 * 2 ^ b ≤ 64
small_power zero lt = omega arith
small_power (suc zero) lt = omega arith
small_power (suc (suc b)) lt = absurd (omega arith)

pub operand_size-IsWidth : (opcode : ℕ) → IsWidth (operand_size opcode)
unfolding IsWidth bit
operand_size-IsWidth opcode =
    small_power (bit opcode 31) (omega (arith, and_ones 1 (opcode / 2 ^ 31)))

pub imm-IsOperand : (size value : ℕ) → IsWidth size → IsOperand (Operand.immediate (imm size value))
unfolding IsOperand IsWidth
imm-IsOperand size value le = imm-IsImmediate size value le

pub system_register-IsOperand : (r : SystemRegister) → IsOperand (Operand.system_register r)
unfolding IsOperand
system_register-IsOperand r = tt

-- The amounts of a shift: fixed, of six bits, and in steps of 16.
pub fixed-IsOperand :
    (type : ShiftType) → IsOperand (Operand.shift (record { type = type; count = 0 }))
unfolding IsOperand
fixed-IsOperand type = omega arith

pub twelve-IsOperand :
    (type : ShiftType) → IsOperand (Operand.shift (record { type = type; count = 12 }))
unfolding IsOperand
twelve-IsOperand type = omega arith

pub amount-IsOperand :
    (type : ShiftType) (opcode : ℕ)
    → IsOperand (Operand.shift (record { type = type; count = bits opcode 10 15 }))
unfolding IsOperand
amount-IsOperand type opcode = bits-lt opcode 10 15 64 (omega arith) (omega arith) (omega arith)

pub steps-IsOperand :
    (type : ShiftType) (opcode : ℕ)
    → IsOperand (Operand.shift (record { type = type; count = bits opcode 21 22 * 2 ^ 4 }))
unfolding IsOperand
steps-IsOperand type opcode =
    omega (arith, bits-lt opcode 21 22 4 (omega arith) (omega arith) (omega arith))

pub if_shift-IsOperand :
    (c : Bool) (a b : Shift)
    → IsOperand (Operand.shift a)
    → IsOperand (Operand.shift b)
    → IsOperand (Operand.shift (if c then a else b))
if_shift-IsOperand true a b ha hb = ha
if_shift-IsOperand false a b ha hb = hb

-- An extension behind its guard, and that of an offset.
pub checked-IsOperand :
    (type : ExtendType) (n : ℕ)
    → ltb 0b100 n ≡ false
    → IsOperand (Operand.extend (record { type = type; count = n }))
unfolding IsOperand
checked-IsOperand type n h = ground arith

pub offset-IsOperand :
    (type : ExtendType) (c : Bool) (opcode : ℕ)
    → IsOperand
        (Operand.extend (record { type = type; count = if c then bits opcode 30 31 else 0 }))
unfolding IsOperand
offset-IsOperand type true opcode =
    omega (arith, bits-lt opcode 30 31 4 (omega arith) (omega arith) (omega arith))
offset-IsOperand type false opcode = omega arith

pub resized-IsOperand :
    (other size opcode l m : ℕ)
    → IsField l m
    → IsOperand (Operand.register (record { size = other; name = (x size opcode l m).name }))
unfolding IsOperand
resized-IsOperand other size opcode l m field = x-IsOperand size opcode l m field

-- Addresses.
pub pc-IsOperand :
    (size : ℕ) → IsOperand (Operand.register (record { size = size; name = name_pc }))
unfolding IsOperand
pc-IsOperand size = omega arith

pub at_offset-IsOperand :
    (size : ℕ) (base : Register) (offset : Immediate) (shift : Shift) (writeback post : Bool)
    → IsOperand (Operand.register base)
    → IsOperand (Operand.immediate offset)
    → IsOperand (Operand.shift shift)
    → IsOperand (
        Operand.immediate_offset (record {
          size = size;
          base = base;
          offset = offset;
          shift = shift;
          writeback = writeback;
          post_index = post;
        }))
unfolding IsOperand
at_offset-IsOperand size base offset shift writeback post hb ho hs = (hb, (ho, hs))

pub at_register-IsOperand :
    (size : ℕ) (base offset : Register) (extend : Extend) (writeback post : Bool)
    → IsOperand (Operand.register base)
    → IsOperand (Operand.register offset)
    → IsOperand (Operand.extend extend)
    → IsOperand (
        Operand.register_offset (record {
          size = size;
          base = base;
          offset = offset;
          extend = extend;
          writeback = writeback;
          post_index = post;
        }))
unfolding IsOperand
at_register-IsOperand size base offset extend writeback post hb ho he = (hb, (ho, he))

-- What an instruction is made of: its shape, its list of operands, and the operands.
pub ruleset shapes =
    (if-IsValid, allocated-IsValid, made-IsValid, none-AreOperands, more-AreOperands)

pub ruleset registers = (
  x-IsOperand, v-IsOperand, x_or_sp-IsOperand, either-IsOperand, resized-IsOperand, pc-IsOperand,
  rd-IsField, rn-IsField, ra-IsField, rm-IsField,
)

pub ruleset constants = (
  imm-IsOperand, IsWidth-8, IsWidth-32, IsWidth-64, operand_size-IsWidth, fixed-IsOperand,
  twelve-IsOperand, amount-IsOperand, steps-IsOperand, if_shift-IsOperand, checked-IsOperand,
  offset-IsOperand,
)

pub ruleset rules = (
  shapes, registers, constants, if-IsOperand, system_register-IsOperand, at_offset-IsOperand,
  at_register-IsOperand,
)
