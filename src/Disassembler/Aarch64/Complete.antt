-- ===== src/Disassembler/Aarch64/Complete.antt =====
-- Decoded branches have the operand that the disassembler reads.
pub mod Rules
mod Constants
mod Systems
mod Branches
mod Registers
mod Vectors
mod Memory
pub mod Decoded
use reil.Base.{
  ℕ, suc, ◌≡◌, refl, Bool, true, false, leb, if◌then◌else◌, List, [], ◌∷◌, length, Option, some,
  none,
}
use reil.Aarch64.Decoder.Types.{Opcode, Operand, Instruction, unallocated}
use reil.Aarch64.Decoder.Bits.{allocated}
use reil.Disassembler.Aarch64.{Role, role}

-- How many operands an instruction must have.
abbrev pub needed : Role → ℕ
needed (Role.may_branch i) = suc i
needed Role.branches = 1
needed Role.calls = 1
needed (Role.ends kind) = 0
needed Role.plain = 0

pub Suits : Opcode → List Operand → Type 0
Suits opcode operands = leb (needed (role opcode)) (length operands) ≡ true

pub IsComplete : Instruction → Type 0
IsComplete i = Suits i.opcode i.operands

pub if-IsComplete :
    (c : Bool) (a b : Instruction) → IsComplete a → IsComplete b → IsComplete (if c then a else b)
if-IsComplete true a b ha hb = ha
if-IsComplete false a b ha hb = hb

pub if-Suits :
    (c : Bool) (first second : Opcode) (operands : List Operand)
    → Suits first operands
    → Suits second operands
    → Suits (if c then first else second) operands
if-Suits true _ _ operands ha hb = ha
if-Suits false _ _ operands ha hb = hb

pub if_first-Suits {ℓ} :
    {A : Type ℓ} (c : Bool) (a b : Opcode × A) (operands : List Operand)
    → Suits a.0 operands
    → Suits b.0 operands
    → Suits (if c then a else b).0 operands
if_first-Suits true a b operands ha hb = ha
if_first-Suits false a b operands ha hb = hb

pub made-IsComplete :
    (address : ℕ) (opcode : Opcode) (operands : List Operand) (cc : Option ℕ) (set_flags : Bool)
    → Suits opcode operands
    → IsComplete (record {
      address = address;
      opcode = opcode;
      operands = operands;
      cc = cc;
      set_flags = set_flags;
    })
unfolding IsComplete
made-IsComplete address opcode operands cc set_flags h = h

module _ {ℓ} {A : Type ℓ} (build : A → Instruction) where
  pub none-IsComplete : IsComplete (allocated none build)
  unfolding IsComplete Suits
  none-IsComplete = refl

  pub if_allocated-IsComplete :
      (c : Bool) (a b : Option A)
      → IsComplete (allocated a build)
      → IsComplete (allocated b build)
      → IsComplete (allocated (if c then a else b) build)
  if_allocated-IsComplete true a b ha hb = ha
  if_allocated-IsComplete false a b ha hb = hb

pub unallocated-IsComplete : (address : ℕ) → IsComplete (record unallocated { address = address })
unfolding IsComplete Suits
unallocated-IsComplete address = refl

pub has_operands :
    (i : Instruction) → IsComplete i → leb (needed (role i.opcode)) (length i.operands) ≡ true
unfolding IsComplete Suits
has_operands i h = h
