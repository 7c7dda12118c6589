-- ===== src/Disassembler/Aarch64/Complete/Rules.antt =====
-- The rules by which an instruction has its operands.
use reil.Disassembler.Aarch64.Complete.{
  if-IsComplete, if-Suits, made-IsComplete, none-IsComplete, if_allocated-IsComplete,
  if_first-Suits,
}

pub ruleset rules = (
  if-IsComplete, if-Suits, made-IsComplete, none-IsComplete, if_allocated-IsComplete,
  if_first-Suits,
)
