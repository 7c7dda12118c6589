-- ===== src/Disassembler/Aarch64/Complete/Registers.antt =====
-- The operands of data processing with registers are as many as the disassembler reads.
use reil.Base.{ℕ}
use reil.Disassembler.Aarch64.Complete.{Suits, IsComplete}
use reil.Disassembler.Aarch64.Complete.Rules.{rules}
use reil.Aarch64.Decoder.Registers.{
  two_source, one_source, logical_shifted_register, add_subtract_shifted_register,
  add_subtract_extended_register, add_subtract_with_carry, conditional_compare, conditional_select,
  three_source, data_processing_register,
}

pub two_source-IsComplete : (opcode : ℕ) → IsComplete (two_source opcode)
unfolding two_source Suits
two_source-IsComplete opcode = search rules depth 40 fits 9000

pub one_source-IsComplete : (opcode : ℕ) → IsComplete (one_source opcode)
unfolding one_source Suits
one_source-IsComplete opcode = search rules depth 40 fits 9000

pub logical_shifted_register-IsComplete :
    (opcode : ℕ) → IsComplete (logical_shifted_register opcode)
unfolding logical_shifted_register Suits
logical_shifted_register-IsComplete opcode = search rules depth 40 fits 9000

pub add_subtract_shifted_register-IsComplete :
    (opcode : ℕ) → IsComplete (add_subtract_shifted_register opcode)
unfolding add_subtract_shifted_register Suits
add_subtract_shifted_register-IsComplete opcode = search rules depth 40 fits 9000

pub add_subtract_extended_register-IsComplete :
    (opcode : ℕ) → IsComplete (add_subtract_extended_register opcode)
unfolding add_subtract_extended_register Suits
add_subtract_extended_register-IsComplete opcode = search rules depth 40 fits 9000

pub add_subtract_with_carry-IsComplete : (opcode : ℕ) → IsComplete (add_subtract_with_carry opcode)
unfolding add_subtract_with_carry Suits
add_subtract_with_carry-IsComplete opcode = search rules depth 40 fits 9000

pub conditional_compare-IsComplete : (opcode : ℕ) → IsComplete (conditional_compare opcode)
unfolding conditional_compare Suits
conditional_compare-IsComplete opcode = search rules depth 40 fits 9000

pub conditional_select-IsComplete : (opcode : ℕ) → IsComplete (conditional_select opcode)
unfolding conditional_select Suits
conditional_select-IsComplete opcode = search rules depth 40 fits 9000

pub three_source-IsComplete : (opcode : ℕ) → IsComplete (three_source opcode)
unfolding three_source Suits
three_source-IsComplete opcode = search rules depth 40 fits 9000

pub data_processing_register-IsComplete :
    (opcode : ℕ) → IsComplete (data_processing_register opcode)
unfolding data_processing_register Suits
data_processing_register-IsComplete opcode =
    search
      (
        rules, two_source-IsComplete, one_source-IsComplete, logical_shifted_register-IsComplete,
        add_subtract_shifted_register-IsComplete, add_subtract_extended_register-IsComplete,
        add_subtract_with_carry-IsComplete, conditional_compare-IsComplete,
        conditional_select-IsComplete, three_source-IsComplete,
      )
      depth 40 fits 9000
