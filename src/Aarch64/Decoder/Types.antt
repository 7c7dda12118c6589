-- ===== src/Aarch64/Decoder/Types.antt =====
-- reil/aarch64/decoder.h: decoded instructions and their operands.
use reil.Base.{ℕ, ◌-◌, ◌^◌, ◌/◌, Bool, false, Option, List, [], bit_and}
pub use reil.Aarch64.Decoder.Opcode.{Opcode}
pub use reil.Aarch64.Decoder.Shift.{ShiftType, Shift}
pub use reil.Aarch64.Decoder.Extend.{ExtendType, Extend}

-- The constructor cuts the value to the size.
pub record Immediate : Type 0 where
  pub size : ℕ
  pub value : ℕ

unfoldable pub imm : ℕ → ℕ → Immediate
imm size value = record { size = size; value = bit_and value ((2 ^ 64 - 1) / 2 ^ (64 - size)) }

-- The `Name` of a register is a number, which the decoder computes from the fields of the opcode:
-- 0 to 31 are X0 to X30 and XZR, then SP, PC, V0 to V31, and the flags N, Z, C and V.
pub record Register : Type 0 where
  pub size : ℕ
  pub name : ℕ

abbrev pub name_sp : ℕ
name_sp = 32

abbrev pub name_pc : ℕ
name_pc = 33

abbrev pub name_v0 : ℕ
name_v0 = 34

abbrev pub name_n : ℕ
name_n = 66

abbrev pub name_v : ℕ
name_v = 69

pub data SystemRegisterName : Type 0 where
  sp_sel daif_set daif_clr uao pan : SystemRegisterName

-- A system register by its name, or of unknown name, by `op0`, `op1`, `op2`, `crn` and `crm`.
pub data SystemRegister : Type 0 where
  named : SystemRegisterName → SystemRegister
  unknown : ℕ → ℕ → ℕ → ℕ → ℕ → SystemRegister

pub record ImmediateOffset : Type 0 where
  pub size : ℕ
  pub base : Register
  pub offset : Immediate
  pub shift : Shift
  pub writeback : Bool
  pub post_index : Bool

pub record RegisterOffset : Type 0 where
  pub size : ℕ
  pub base : Register
  pub offset : Register
  pub extend : Extend
  pub writeback : Bool
  pub post_index : Bool

pub data Operand : Type 0 where
  immediate : Immediate → Operand
  register : Register → Operand
  system_register : SystemRegister → Operand
  shift : Shift → Operand
  extend : Extend → Operand
  immediate_offset : ImmediateOffset → Operand
  register_offset : RegisterOffset → Operand

-- `cc` is a `ConditionCode` cast from its four bits, and has no value until one is assigned.
pub record Instruction : Type 0 where
  pub address : ℕ
  pub opcode : Opcode
  pub operands : List Operand
  pub cc : Option ℕ
  pub set_flags : Bool

-- A new `Instruction` with this opcode and these operands.
abbrev pub insn : Opcode → List Operand → Instruction
insn opcode operands = record {
  address = 0;
  opcode = opcode;
  operands = operands;
  cc = Option.none;
  set_flags = false;
}

-- `UnallocatedEncoding()`
abbrev pub unallocated : Instruction
unallocated = insn Opcode.unallocated []

-- The constructors of the two addresses, without write-back.
abbrev pub at_offset : Register → Immediate → Shift → ℕ → ImmediateOffset
at_offset base offset shifted size = record {
  size = size;
  base = base;
  offset = offset;
  shift = shifted;
  writeback = false;
  post_index = false;
}

abbrev pub at_register : Register → Register → Extend → ℕ → RegisterOffset
at_register base offset extended size = record {
  size = size;
  base = base;
  offset = offset;
  extend = extended;
  writeback = false;
  post_index = false;
}

abbrev pub no_shift : Shift
no_shift = record { type = ShiftType.none; count = 0 }
