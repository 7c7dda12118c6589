-- ===== src/Aarch64/Decoder/Valid.antt =====
-- Operands whose parts are in range, and the shapes of code that make instructions of them.
pub mod Rules
mod Branches
mod Constants
mod Systems
mod Registers
mod Vectors
pub mod Decoded
mod Memory
use native.Mathlib.Nat.{mod-lt, one-le-pow}
use reil.Base.{◌||◌}
use reil.Base.{
  ℕ, suc, ◌+◌, ◌-◌, ◌*◌, ◌/◌, ◌%◌, ◌^◌, ◌≤◌, ◌<◌, ◌≡◌, refl, ap, sym, ◌∙◌, Bool, true, false, leb,
  ltb, ◌==◌, if◌then◌else◌, arith, ==_iff, All, List, [], ◌∷◌, Option, some, none, switch, bit_and,
}
use reil.Base.Powers.{passes, passes_at}
use reil.Aarch64.Decoder.Types.{
  Opcode, Immediate, imm, Register, name_sp, name_pc, name_v0, SystemRegister, Shift, Extend,
  ImmediateOffset, RegisterOffset, Operand, Instruction, insn, unallocated,
}
use reil.Aarch64.Decoder.Bits.{bits, bit, x, x_or_sp, v, operand_size, allocated}
use reil.Aarch64.Decoder.Fields.{bits-value, and_ones}

abbrev pub IsImmediate : Immediate → Type 0
IsImmediate i = (i.size ≤ 64) × (i.value < 2 ^ i.size)

-- A name of a register that is not a flag.
abbrev pub IsRegister : Register → Type 0
IsRegister r = r.name < 66

abbrev pub IsShift : Shift → Type 0
IsShift s = s.count < 64

abbrev pub IsExtend : Extend → Type 0
IsExtend e = e.count ≤ 4

pub IsOperand : Operand → Type 0
IsOperand (Operand.immediate i) = IsImmediate i
IsOperand (Operand.register r) = IsRegister r
IsOperand (Operand.system_register r) = Unit
IsOperand (Operand.shift s) = IsShift s
IsOperand (Operand.extend e) = IsExtend e
IsOperand (Operand.immediate_offset o) =
    IsRegister o.base × (IsImmediate o.offset × IsShift o.shift)
IsOperand (Operand.register_offset o) =
    IsRegister o.base × (IsRegister o.offset × IsExtend o.extend)

pub IsValid : Instruction → Type 0
IsValid i = All IsOperand i.operands

pub AreOperands : List Operand → Type 0
AreOperands operands = All IsOperand operands

pub none-AreOperands : AreOperands []
unfolding AreOperands
none-AreOperands = tt

pub more-AreOperands :
    (a : Operand) (rest : List Operand) → IsOperand a → AreOperands rest → AreOperands (a ∷ rest)
unfolding AreOperands
more-AreOperands a rest h hs = (h, hs)

pub made-IsValid :
    (address : ℕ) (opcode : Opcode) (operands : List Operand) (cc : Option ℕ) (set_flags : Bool)
    → AreOperands operands
    → IsValid (record {
      address = address;
      opcode = opcode;
      operands = operands;
      cc = cc;
      set_flags = set_flags;
    })
unfolding IsValid AreOperands
made-IsValid address opcode operands cc set_flags h = h

pub if-IsValid :
    (c : Bool) (a b : Instruction) → IsValid a → IsValid b → IsValid (if c then a else b)
if-IsValid true a b ha hb = ha
if-IsValid false a b ha hb = hb

pub switch-IsValid :
    (n : ℕ) (cases : List (ℕ × Instruction)) (d : Instruction)
    → All (λ c. IsValid c.1) cases
    → IsValid d
    → IsValid (switch n cases d)
switch-IsValid n [] d h hd = hd
switch-IsValid n (c ∷ cases) d h hd =
    if-IsValid (c.0 == n) c.1 (switch n cases d) h.0 (switch-IsValid n cases d h.1 hd)

pub allocated-IsValid {ℓ} :
    {A : Type ℓ} (op : Option A) (build : A → Instruction)
    → ((a : A) → IsValid (build a))
    → IsValid (allocated op build)
unfolding IsValid
allocated-IsValid none build h = tt
allocated-IsValid (some a) build h = h a

-- A branch behind a guard may use that the guard has passed.
pub guarded-IsValid :
    (a b : Bool) (i : Instruction)
    → (b ≡ false → IsValid i)
    → IsValid (if a || b then unallocated else i)
unfolding IsValid
guarded-IsValid true b i h = tt
guarded-IsValid false true i h = tt
guarded-IsValid false false i h = h refl

pub bits-lt : (opcode l m n : ℕ) → l ≤ m → m < 32 → 2 ^ (m - l + 1) ≤ n → bits opcode l m < n
bits-lt opcode l m n le lt enough = omega (
  arith,
  bits-value opcode l m le lt,
  mod-lt (opcode / 2 ^ l) (one-le-pow (m - l + 1) 2 (omega arith)),
)

full_mask : (size : ℕ) → size ≤ 64 → (2 ^ 64 - 1) / 2 ^ (64 - size) ≡ 2 ^ size - 1
full_mask size le =
    (==_iff ((2 ^ 64 - 1) / 2 ^ (64 - size)) (2 ^ size - 1)).0
      (passes_at 65 (λ k. (2 ^ 64 - 1) / 2 ^ (64 - k) == 2 ^ k - 1) size refl (omega arith))

pub imm-IsImmediate : (size value : ℕ) → size ≤ 64 → IsImmediate (imm size value)
unfolding imm
imm-IsImmediate size value le = (
  le,
  omega (
    arith,
    ap (bit_and value) (full_mask size le),
    and_ones size value,
    mod-lt value (one-le-pow size 2 (omega arith)),
  ),
)
