-- ===== src/Disassembler/Aarch64/Complete/Decoded.antt =====
-- Every decoded instruction has the operand that the disassembler reads.
use reil.Base.{ℕ}
use reil.Disassembler.Aarch64.Complete.{Suits, IsComplete}
use reil.Disassembler.Aarch64.Complete.Rules.{rules}
use reil.Aarch64.Decoder.{classified, decode}
use reil.Disassembler.Aarch64.Complete.Constants.{data_processing_immediate-IsComplete}
use reil.Disassembler.Aarch64.Complete.Branches.{branch_exception_generating_system-IsComplete}
use reil.Disassembler.Aarch64.Complete.Memory.{load_store-IsComplete}
use reil.Disassembler.Aarch64.Complete.Registers.{data_processing_register-IsComplete}

classified-IsComplete : (opcode : ℕ) → IsComplete (classified opcode)
unfolding classified Suits
classified-IsComplete opcode =
    search
      (
        rules, data_processing_immediate-IsComplete, branch_exception_generating_system-IsComplete,
        load_store-IsComplete, data_processing_register-IsComplete,
      )
      depth 20

pub decode-IsComplete : (address opcode : ℕ) → IsComplete (decode address opcode)
unfolding decode IsComplete
decode-IsComplete address opcode = classified-IsComplete opcode
