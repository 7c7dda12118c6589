-- ===== src/Disassembler/Aarch64/Reach.antt =====
-- Where the flow of control goes from an address, apart from the search for it.
pub mod Instruction
pub mod Edges
pub mod Extended
pub mod Invariant
pub mod Loop
pub mod Whole
use reil.Base.{ℕ, ◌+◌, ◌≡◌, ◌⊎◌, Option, some, List, get_elem?, u64}
use reil.Aarch64.Decoder.Types.{Operand}
use reil.MemoryImage.{MemoryImage}
use reil.Disassembler.Aarch64.{Role, role, decode_at, pc_relative_address}

-- A branch to an immediate goes there; where one to a register goes is not known.
abbrev pub JumpsTo : ℕ → Option Operand → ℕ → Type 0
JumpsTo address (some (Operand.immediate offset)) next = next ≡ pc_relative_address address offset
JumpsTo address _ next = ⊥

abbrev pub Follows : ℕ → List Operand → Role → ℕ → Type 0
Follows address operands (Role.may_branch i) next =
    (next ≡ u64 (address + 4)) ⊎ JumpsTo address (get_elem? operands i) next
Follows address operands Role.branches next = JumpsTo address (get_elem? operands 0) next
Follows address operands Role.calls next = next ≡ u64 (address + 4)
Follows address operands Role.plain next = next ≡ u64 (address + 4)
Follows address operands (Role.ends kind) next = ⊥

-- The instruction at `address` passes control to `next` within the function.
abbrev pub Flows : MemoryImage → ℕ → ℕ → Type 0
Flows image address next =
    let i = decode_at image address in Follows address i.operands (role i.opcode) next

-- The addresses that control may reach from `start`.
pub data Reaches (image : MemoryImage) (start : ℕ) : ℕ → Type 0 where
  here : Reaches image start start
  then : (a b : ℕ) → Reaches image start a → Flows image a b → Reaches image start b
