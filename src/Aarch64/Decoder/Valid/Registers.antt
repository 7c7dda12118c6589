-- ===== src/Aarch64/Decoder/Valid/Registers.antt =====
-- The operands of data processing with registers are in range.
use reil.Base.{ℕ}
use reil.Aarch64.Decoder.Registers.{add_subtract_extended_register, data_processing_register}
use reil.Aarch64.Decoder.Valid.{guarded-IsValid}
use reil.Aarch64.Decoder.Valid.{IsValid}
use reil.Aarch64.Decoder.Valid.Rules.{rules}
use reil.Aarch64.Decoder.Registers.{
  two_source, one_source, logical_shifted_register, add_subtract_shifted_register,
  add_subtract_with_carry, conditional_compare, conditional_select, three_source,
}

pub two_source-IsValid : (opcode : ℕ) → IsValid (two_source opcode)
unfolding two_source
two_source-IsValid opcode = search rules depth 40 fits 9000

pub one_source-IsValid : (opcode : ℕ) → IsValid (one_source opcode)
unfolding one_source
one_source-IsValid opcode = search rules depth 40 fits 9000

pub logical_shifted_register-IsValid : (opcode : ℕ) → IsValid (logical_shifted_register opcode)
unfolding logical_shifted_register
logical_shifted_register-IsValid opcode = search rules depth 40 fits 9000

pub add_subtract_shifted_register-IsValid :
    (opcode : ℕ) → IsValid (add_subtract_shifted_register opcode)
unfolding add_subtract_shifted_register
add_subtract_shifted_register-IsValid opcode = search rules depth 40 fits 9000

pub add_subtract_with_carry-IsValid : (opcode : ℕ) → IsValid (add_subtract_with_carry opcode)
unfolding add_subtract_with_carry
add_subtract_with_carry-IsValid opcode = search rules depth 40 fits 9000

pub conditional_compare-IsValid : (opcode : ℕ) → IsValid (conditional_compare opcode)
unfolding conditional_compare
conditional_compare-IsValid opcode = search rules depth 40 fits 9000

pub conditional_select-IsValid : (opcode : ℕ) → IsValid (conditional_select opcode)
unfolding conditional_select
conditional_select-IsValid opcode = search rules depth 40 fits 9000

pub three_source-IsValid : (opcode : ℕ) → IsValid (three_source opcode)
unfolding three_source
three_source-IsValid opcode = search rules depth 40 fits 9000

pub add_subtract_extended_register-IsValid :
    (opcode : ℕ) → IsValid (add_subtract_extended_register opcode)
unfolding add_subtract_extended_register
add_subtract_extended_register-IsValid opcode = search (rules, guarded-IsValid) depth 40 fits 9000

pub data_processing_register-IsValid : (opcode : ℕ) → IsValid (data_processing_register opcode)
unfolding data_processing_register
data_processing_register-IsValid opcode =
    search
      (
        rules, two_source-IsValid, one_source-IsValid, logical_shifted_register-IsValid,
        add_subtract_shifted_register-IsValid, add_subtract_with_carry-IsValid,
        conditional_compare-IsValid, conditional_select-IsValid, three_source-IsValid,
        add_subtract_extended_register-IsValid,
      )
      depth 40 fits 9000
