-- ===== src/Aarch64/Decoder/Valid/Constants.antt =====
-- The operands of data processing with immediates are in range.
use reil.Base.{ℕ}
use reil.Aarch64.Decoder.Constants.{data_processing_immediate}
use reil.Aarch64.Decoder.Valid.{IsValid}
use reil.Aarch64.Decoder.Valid.Rules.{rules}
use reil.Aarch64.Decoder.Constants.{
  pc_relative_addressing, add_subtract_immediate, logical_immediate, move_wide_immediate, bitfield,
  extract,
}

pub pc_relative_addressing-IsValid : (opcode : ℕ) → IsValid (pc_relative_addressing opcode)
unfolding pc_relative_addressing
pc_relative_addressing-IsValid opcode = search rules depth 40 fits 9000

pub add_subtract_immediate-IsValid : (opcode : ℕ) → IsValid (add_subtract_immediate opcode)
unfolding add_subtract_immediate
add_subtract_immediate-IsValid opcode = search rules depth 40 fits 9000

pub logical_immediate-IsValid : (opcode : ℕ) → IsValid (logical_immediate opcode)
unfolding logical_immediate
logical_immediate-IsValid opcode = search rules depth 40 fits 9000

pub move_wide_immediate-IsValid : (opcode : ℕ) → IsValid (move_wide_immediate opcode)
unfolding move_wide_immediate
move_wide_immediate-IsValid opcode = search rules depth 40 fits 9000

pub bitfield-IsValid : (opcode : ℕ) → IsValid (bitfield opcode)
unfolding bitfield
bitfield-IsValid opcode = search rules depth 40 fits 9000

pub extract-IsValid : (opcode : ℕ) → IsValid (extract opcode)
unfolding extract
extract-IsValid opcode = search rules depth 40 fits 9000

pub data_processing_immediate-IsValid : (opcode : ℕ) → IsValid (data_processing_immediate opcode)
unfolding data_processing_immediate
data_processing_immediate-IsValid opcode =
    search
      (
        rules, pc_relative_addressing-IsValid, add_subtract_immediate-IsValid,
        logical_immediate-IsValid, move_wide_immediate-IsValid, bitfield-IsValid, extract-IsValid,
      )
      depth 40 fits 9000
