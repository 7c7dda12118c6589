-- ===== src/Instruction.antt =====
-- reil/reil.h: the REIL instructions. `Instruction.Build` has the functions of reil/reil.cpp that
-- make them.
pub mod Build
use Prim.Native.String.{String}
use reil.Base.{ℕ, List}
use reil.Immediate.{Immediate}
use reil.Immediate

pub data Opcode : Type 0 where
  add and bisz bsh div jcc ldm modulus mul nop or stm str sub undef unkn xor : Opcode
  equ lshl lshr ashr sex sys : Opcode
  ite : Opcode

pub record Register : Type 0 where
  pub size : ℕ
  pub index : ℕ
  pub name : String

pub record Temporary : Type 0 where
  pub size : ℕ
  pub index : ℕ

-- `absl::variant<int, Immediate, Offset, Register, Temporary, Label>`; an operand that is not
-- given holds the `int` 0. `OperandType` numbers the alternatives in this order.
pub data Operand : Type 0 where
  no_operand : Operand
  immediate : Immediate → Operand
  offset : ℕ → Operand
  register : Register → Operand
  temporary : Temporary → Operand
  label : ℕ → Operand

pub record Instruction : Type 0 where
  pub opcode : Opcode
  pub input0 : Operand
  pub input1 : Operand
  pub input2 : Operand
  pub output : Operand

pub record NativeInstruction : Type 0 where
  pub address : ℕ
  pub size : ℕ
  pub mnemonic : String
  pub reil : List Instruction

-- `Size(operand)`
unfoldable pub operand_size : Operand → ℕ
operand_size (immediate a) = Immediate.size a
operand_size (register r) = r.size
operand_size (temporary t) = t.size
operand_size _ = 0

-- The hints of `Jcc`.
unfoldable pub jump_hint : Immediate
jump_hint = Immediate.from_value 8 0

unfoldable pub call_hint : Immediate
call_hint = Immediate.from_value 8 1

unfoldable pub return_hint : Immediate
return_hint = Immediate.from_value 8 2
