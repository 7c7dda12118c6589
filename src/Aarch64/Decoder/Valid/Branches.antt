-- ===== src/Aarch64/Decoder/Valid/Branches.antt =====
-- The operands of branches are in range.
use reil.Base.{ℕ}
use reil.Aarch64.Decoder.Branches.{branch_exception_generating_system}
use reil.Aarch64.Decoder.Valid.Systems.{system-IsValid}
use reil.Aarch64.Decoder.Valid.{IsValid}
use reil.Aarch64.Decoder.Valid.Rules.{rules}
use reil.Aarch64.Decoder.Branches.{
  conditional_branch, exception_generation, branch_register, branch_immediate, compare_and_branch,
  test_and_branch,
}

pub conditional_branch-IsValid : (opcode : ℕ) → IsValid (conditional_branch opcode)
unfolding conditional_branch
conditional_branch-IsValid opcode = search rules depth 40 fits 9000

pub exception_generation-IsValid : (opcode : ℕ) → IsValid (exception_generation opcode)
unfolding exception_generation
exception_generation-IsValid opcode = search rules depth 40 fits 9000

pub branch_register-IsValid : (opcode : ℕ) → IsValid (branch_register opcode)
unfolding branch_register
branch_register-IsValid opcode = search rules depth 40 fits 9000

pub branch_immediate-IsValid : (opcode : ℕ) → IsValid (branch_immediate opcode)
unfolding branch_immediate
branch_immediate-IsValid opcode = search rules depth 40 fits 9000

pub compare_and_branch-IsValid : (opcode : ℕ) → IsValid (compare_and_branch opcode)
unfolding compare_and_branch
compare_and_branch-IsValid opcode = search rules depth 40 fits 9000

pub test_and_branch-IsValid : (opcode : ℕ) → IsValid (test_and_branch opcode)
unfolding test_and_branch
test_and_branch-IsValid opcode = search rules depth 40 fits 9000

pub branch_exception_generating_system-IsValid :
    (opcode : ℕ) → IsValid (branch_exception_generating_system opcode)
unfolding branch_exception_generating_system
branch_exception_generating_system-IsValid opcode =
    search
      (
        rules, conditional_branch-IsValid, exception_generation-IsValid, branch_register-IsValid,
        branch_immediate-IsValid, compare_and_branch-IsValid, test_and_branch-IsValid,
        system-IsValid,
      )
      depth 40 fits 9000
