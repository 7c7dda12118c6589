-- ===== src/Disassembler/Aarch64/Complete/Branches.antt =====
-- The operands of branches are as many as the disassembler reads.
use reil.Base.{ℕ}
use reil.Disassembler.Aarch64.Complete.{Suits, IsComplete}
use reil.Disassembler.Aarch64.Complete.Rules.{rules}
use reil.Disassembler.Aarch64.Complete.Systems.{system-IsComplete}
use reil.Aarch64.Decoder.Branches.{
  conditional_branch, exception_generation, branch_register, branch_immediate, compare_and_branch,
  test_and_branch, branch_exception_generating_system,
}

pub conditional_branch-IsComplete : (opcode : ℕ) → IsComplete (conditional_branch opcode)
unfolding conditional_branch Suits
conditional_branch-IsComplete opcode = search rules depth 40 fits 9000

pub exception_generation-IsComplete : (opcode : ℕ) → IsComplete (exception_generation opcode)
unfolding exception_generation Suits
exception_generation-IsComplete opcode = search rules depth 40 fits 9000

pub branch_register-IsComplete : (opcode : ℕ) → IsComplete (branch_register opcode)
unfolding branch_register Suits
branch_register-IsComplete opcode = search rules depth 40 fits 9000

pub branch_immediate-IsComplete : (opcode : ℕ) → IsComplete (branch_immediate opcode)
unfolding branch_immediate Suits
branch_immediate-IsComplete opcode = search rules depth 40 fits 9000

pub compare_and_branch-IsComplete : (opcode : ℕ) → IsComplete (compare_and_branch opcode)
unfolding compare_and_branch Suits
compare_and_branch-IsComplete opcode = search rules depth 40 fits 9000

pub test_and_branch-IsComplete : (opcode : ℕ) → IsComplete (test_and_branch opcode)
unfolding test_and_branch Suits
test_and_branch-IsComplete opcode = search rules depth 40 fits 9000

pub branch_exception_generating_system-IsComplete :
    (opcode : ℕ) → IsComplete (branch_exception_generating_system opcode)
unfolding branch_exception_generating_system Suits
branch_exception_generating_system-IsComplete opcode =
    search
      (
        rules, conditional_branch-IsComplete, exception_generation-IsComplete,
        branch_register-IsComplete, branch_immediate-IsComplete, compare_and_branch-IsComplete,
        test_and_branch-IsComplete, system-IsComplete,
      )
      depth 40 fits 9000
