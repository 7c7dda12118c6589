-- ===== src/Interpreter/Tests.antt =====
-- Runs of the interpreter on small translations, and its theorems at them.

use reil.Base.{ℕ, ◌≡◌, ◌-◌, ◌^◌, refl, none, List, ◌∷◌, [], ok, ◌>>=◌, arith, Returns}
use reil.Immediate.{Immediate}
use reil.Instruction.{
  Opcode, Register, Instruction, NativeInstruction, no_operand, immediate, offset, register,
}
use reil.Interpreter.{State, get_operand, get_register, get_memory, set_memory, single_step}
use reil.Interpreter.Memory.{Covers, get_memory-set_memory}
use reil.Interpreter.Frame.{Ensures, Keeps, single_step-Keeps}
use reil.Interpreter.Forward.{Ends, execute-Ends}
use reil.Interpreter.Steps.{Writes, single_step-add, single_step-sub, store-load}

abbrev x0 : Register
x0 = record { size = 64; index = 0; name = "x0" }

abbrev byte : ℕ → Immediate
byte n = n ∷ []

abbrev address : Immediate
address = 0 ∷ 0x10 ∷ []

abbrev adding : Instruction
adding = record {
  opcode = Opcode.add;
  input0 = immediate (byte 200);
  input1 = immediate (byte 100);
  input2 = no_operand;
  output = register x0;
}

abbrev subtracting : Instruction
subtracting = record adding { opcode = Opcode.sub }

abbrev storing : Instruction
storing = record {
  opcode = Opcode.stm;
  input0 = immediate address;
  input1 = no_operand;
  input2 = no_operand;
  output = immediate address;
}

abbrev loading : Instruction
loading = record {
  opcode = Opcode.ldm;
  input0 = immediate address;
  input1 = no_operand;
  input2 = no_operand;
  output = register (record x0 { size = 16 });
}

abbrev skipping : Instruction
skipping = record {
  opcode = Opcode.jcc;
  input0 = immediate (byte 1);
  input1 = no_operand;
  input2 = no_operand;
  output = offset 2;
}

abbrev state : List Instruction → State
state l = record {
  memory = λ _. 0;
  registers = λ _. none;
  temporaries = λ _. none;
  instructions = l;
  pc = 4096;
  offset = 0;
}

read_immediate : (l : List Instruction) (v : Immediate) → get_operand (state l) (immediate v) ≡ ok v
unfolding get_operand
read_immediate l v = refl

get_memory-set_memory_example :
    (get_memory (set_memory (state []) (2 ^ 64 - 1) address) (2 ^ 64 - 1) 2 ≡ address)
    × ((k : ℕ)
        → ¬ Covers (2 ^ 64 - 1) 0 2 k
        → (set_memory (state []) (2 ^ 64 - 1) address).memory k ≡ 0)
get_memory-set_memory_example = get_memory-set_memory (state []) (2 ^ 64 - 1) address (omega arith)

single_step-Keeps_example :
    Ensures
      (Keeps Opcode.add (register x0) (record (state (adding ∷ [])) { offset = 1 }))
      (single_step (state (adding ∷ [])))
single_step-Keeps_example = single_step-Keeps (state (adding ∷ [])) adding refl

single_step-add_example :
    Returns (single_step (state (adding ∷ []))) (Writes (byte 200) 300 x0 (state (adding ∷ [])))
single_step-add_example =
    single_step-add (state (adding ∷ [])) adding x0 (byte 200) (byte 100) refl refl
      (read_immediate (adding ∷ []) (byte 200)) (read_immediate (adding ∷ []) (byte 100))
      (omega arith, tt) (omega arith, tt) refl (omega arith) (omega arith) refl

single_step-sub_example :
    Returns
      (single_step (state (subtracting ∷ [])))
      (Writes (byte 200) 100 x0 (state (subtracting ∷ [])))
single_step-sub_example =
    single_step-sub (state (subtracting ∷ [])) subtracting x0 (byte 200) (byte 100) refl refl
      (read_immediate (subtracting ∷ []) (byte 200)) (read_immediate (subtracting ∷ []) (byte 100))
      (omega arith, tt) (omega arith, tt) refl (omega arith) (omega arith) refl

store-load_example :
    Returns
      (single_step (state (storing ∷ loading ∷ [])) >>= single_step)
      (λ s'. get_register s' 0 ≡ ok address)
store-load_example =
    store-load (state (storing ∷ loading ∷ [])) storing loading (record x0 { size = 16 }) address
      address address refl refl (omega arith) refl refl
      (read_immediate (storing ∷ loading ∷ []) address)
      (read_immediate (storing ∷ loading ∷ []) address)
      (read_immediate (storing ∷ loading ∷ []) address) refl refl refl (omega arith)

abbrev native : NativeInstruction
native = record {
  address = 4096;
  size = 4;
  mnemonic = "add";
  reil = skipping ∷ subtracting ∷ adding ∷ [];
}

execute-Ends_example : Ends 4 (state []) native
execute-Ends_example =
    execute-Ends 4 (state []) native (omega arith, (tt, (tt, tt))) (omega arith) (omega arith)
