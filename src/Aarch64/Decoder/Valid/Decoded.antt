-- ===== src/Aarch64/Decoder/Valid/Decoded.antt =====
-- Every decoded instruction has its operands in range.
use reil.Base.{ℕ}
use reil.Aarch64.Decoder.{classified, decode}
use reil.Aarch64.Decoder.Types.{Instruction}
use reil.Aarch64.Decoder.Valid.{IsValid}
use reil.Aarch64.Decoder.Valid.Rules.{rules}
use reil.Aarch64.Decoder.Valid.Constants.{data_processing_immediate-IsValid}
use reil.Aarch64.Decoder.Valid.Branches.{branch_exception_generating_system-IsValid}
use reil.Aarch64.Decoder.Valid.Memory.{load_store-IsValid}
use reil.Aarch64.Decoder.Valid.Registers.{data_processing_register-IsValid}

at_address-IsValid :
    (address : ℕ) (i : Instruction) → IsValid i → IsValid (record i { address = address })
unfolding IsValid
at_address-IsValid address i h = h

classified-IsValid : (opcode : ℕ) → IsValid (classified opcode)
unfolding classified
classified-IsValid opcode =
    search
      (
        rules, data_processing_immediate-IsValid, branch_exception_generating_system-IsValid,
        load_store-IsValid, data_processing_register-IsValid,
      )
      depth 20

-- In the instruction that any opcode decodes to, each register is one of X0 to X30, XZR, SP, PC
-- and V0 to V31, each immediate fits its size of at most 64 bits, each shift is by less than 64,
-- and each extension shifts by at most 4.
pub decode-IsValid : (address opcode : ℕ) → IsValid (decode address opcode)
unfolding decode
decode-IsValid address opcode =
    at_address-IsValid address (classified opcode) (classified-IsValid opcode)
