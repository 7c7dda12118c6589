-- ===== src/Translation/Finalise.antt =====
-- `Translation::Finalise`: labels become offsets.
pub mod Forward
pub mod Whole
pub mod Reference
pub mod Execute
mod Tests
use reil.Base.{
  ℕ, zero, suc, ◌-◌, ◌==◌, not, ◌&&◌, true, false, if◌then◌else◌, Bool, Option, some, none, List,
  [], ◌∷◌, length, get_elem?, u16, Run, ok, fault, Fault, out_of_fuel,
}
use reil.Instruction.{Opcode, Operand, Instruction, label, offset}
use reil.Translation.{Translation}

abbrev pub is_nop : Opcode → Bool
is_nop Opcode.nop = true
is_nop _ = false

abbrev pub is_jcc : Opcode → Bool
is_jcc Opcode.jcc = true
is_jcc _ = false

-- The label of an operand.
abbrev pub label_of : Operand → Option ℕ
label_of (label index) = some index
label_of _ = none

-- The label of a `Nop` that marks a place.
abbrev pub placed_label : Instruction → Option ℕ
placed_label ri = if is_nop ri.opcode then label_of ri.input0 else none

-- Whether the instruction is a jump to the label.
abbrev pub jumps_to : ℕ → Instruction → Bool
jumps_to index rj =
    is_jcc rj.opcode && elim (label_of rj.output) [ some l ↦ index == l | none ↦ false ]

-- The body of the inner loop: a jump to the label goes to the offset.
unfoldable pub resolve_one : ℕ → ℕ → Instruction → Instruction
resolve_one index i rj = if jumps_to index rj then record rj { output = offset (u16 i) } else rj

-- The inner loop.
unfoldable pub resolve : ℕ → ℕ → List Instruction → List Instruction
resolve index i [] = []
resolve index i (rj ∷ rest) = resolve_one index i rj ∷ resolve index i rest

-- `translation_.erase(translation_.begin() + i)`
unfoldable pub erase_at : ℕ → List Instruction → List Instruction
erase_at i [] = []
erase_at zero (ri ∷ rest) = rest
erase_at (suc i) (ri ∷ rest) = ri ∷ erase_at i rest

-- The body of the outer loop, at the instruction `ri` with the index `i`.
unfoldable pub place : ℕ → Instruction → List Instruction → List Instruction
place i ri instructions = elim (placed_label ri) [
  | none ↦ instructions
  | some index ↦
      if not (i == length instructions - 1)
      then erase_at i (resolve index i instructions)
      else resolve index i instructions
]

-- The outer loop, which has a round for each instruction at most.
unfoldable pub finalise_from : ℕ → ℕ → List Instruction → Run (List Instruction)
finalise_from zero i instructions = elim (get_elem? instructions i) [
  | none ↦ ok instructions
  | some _ ↦ fault out_of_fuel
]
finalise_from (suc fuel) i instructions = elim (get_elem? instructions i) [
  | none ↦ ok instructions
  | some ri ↦ finalise_from fuel (suc i) (place i ri instructions)
]

-- `Finalise`
unfoldable pub finalise : Translation → Run (List Instruction)
finalise t = finalise_from (length t.translation) 0 t.translation
