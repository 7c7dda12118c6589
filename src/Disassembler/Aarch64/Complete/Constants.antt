-- ===== src/Disassembler/Aarch64/Complete/Constants.antt =====
-- The operands of data processing with immediates are as many as the disassembler reads.
use reil.Base.{ℕ}
use reil.Disassembler.Aarch64.Complete.{Suits, IsComplete}
use reil.Disassembler.Aarch64.Complete.Rules.{rules}
use reil.Aarch64.Decoder.Constants.{
  pc_relative_addressing, add_subtract_immediate, logical_immediate, move_wide_immediate, bitfield,
  extract, data_processing_immediate,
}

pub pc_relative_addressing-IsComplete : (opcode : ℕ) → IsComplete (pc_relative_addressing opcode)
unfolding pc_relative_addressing Suits
pc_relative_addressing-IsComplete opcode = search rules depth 40 fits 9000

pub add_subtract_immediate-IsComplete : (opcode : ℕ) → IsComplete (add_subtract_immediate opcode)
unfolding add_subtract_immediate Suits
add_subtract_immediate-IsComplete opcode = search rules depth 40 fits 9000

pub logical_immediate-IsComplete : (opcode : ℕ) → IsComplete (logical_immediate opcode)
unfolding logical_immediate Suits
logical_immediate-IsComplete opcode = search rules depth 40 fits 9000

pub move_wide_immediate-IsComplete : (opcode : ℕ) → IsComplete (move_wide_immediate opcode)
unfolding move_wide_immediate Suits
move_wide_immediate-IsComplete opcode = search rules depth 40 fits 9000

pub bitfield-IsComplete : (opcode : ℕ) → IsComplete (bitfield opcode)
unfolding bitfield Suits
bitfield-IsComplete opcode = search rules depth 40 fits 9000

pub extract-IsComplete : (opcode : ℕ) → IsComplete (extract opcode)
unfolding extract Suits
extract-IsComplete opcode = search rules depth 40 fits 9000

pub data_processing_immediate-IsComplete :
    (opcode : ℕ) → IsComplete (data_processing_immediate opcode)
unfolding data_processing_immediate Suits
data_processing_immediate-IsComplete opcode =
    search
      (
        rules, pc_relative_addressing-IsComplete, add_subtract_immediate-IsComplete,
        logical_immediate-IsComplete, move_wide_immediate-IsComplete, bitfield-IsComplete,
        extract-IsComplete,
      )
      depth 40 fits 9000
