-- ===== src/Interpreter.antt =====
-- reil/interpreter.h and reil/interpreter.cpp: the class `Interpreter`.
pub mod Frame
pub mod Memory
pub mod Forward
pub mod Steps
mod Tests
use reil.Base.{
  ℕ, zero, suc, ◌+◌, ◌-◌, ◌*◌, ◌/◌, ◌%◌, ◌^◌, ◌≡◌, Option, none, some, List, [], ◌∷◌, ltb, leb,
  ◌==◌, not, if◌then◌else◌, u16, u64, length, get_elem?, Run, ok, fault, out_of_range, aborted,
  undefined, check_failed, out_of_fuel, check, ◌>>=◌, ◌>>◌,
}
use reil.Immediate
use reil.Immediate.{Immediate}
use reil.Instruction.{
  Opcode, Operand, Instruction, NativeInstruction, Register, Temporary, no_operand, immediate,
  offset, register, temporary, label, operand_size,
}

-- The members. A byte of `memory_` that was never written is made with the value 0 when it is
-- read; registers and temporaries are there once they are written.
pub record State : Type 0 where
  pub memory : ℕ → ℕ
  pub registers : ℕ → Option Immediate
  pub temporaries : ℕ → Option Immediate
  pub instructions : List Instruction
  pub pc : ℕ
  pub offset : ℕ

-- `m[key] = v`
abbrev pub update {ℓ} : {A : Type ℓ} → (ℕ → A) → ℕ → A → ℕ → A
update m key v k = if k == key then v else m k

-- `std::map::at`
abbrev at : (ℕ → Option Immediate) → ℕ → Run Immediate
at m key = elim (m key) [ some v ↦ ok v | none ↦ fault out_of_range ]

unfoldable pub get_operand : State → Operand → Run Immediate
get_operand s (immediate a) = ok a
get_operand s (register r) = at s.registers r.index
get_operand s (temporary t) = at s.temporaries t.index
get_operand s _ = fault aborted

unfoldable pub set_operand : State → Operand → Immediate → Run State
set_operand s (register r) v = ok (record s { registers = update s.registers r.index (some v) })
set_operand s (temporary t) v =
    ok (record s { temporaries = update s.temporaries t.index (some v) })
set_operand s _ v = fault aborted

-- `GetMemory`, with the index of the byte that is read next.
read_bytes : (ℕ → ℕ) → ℕ → ℕ → ℕ → List ℕ
read_bytes memory address i zero = []
read_bytes memory address i (suc left) =
    memory (u64 (address + i)) ∷ read_bytes memory address (i + 1) left

unfoldable pub get_memory : State → ℕ → ℕ → List ℕ
unfolding read_bytes
get_memory s address size = read_bytes s.memory address 0 size

write_bytes : (ℕ → ℕ) → ℕ → ℕ → List ℕ → ℕ → ℕ
write_bytes memory address i [] = memory
write_bytes memory address i (b ∷ bytes) =
    write_bytes (update memory (u64 (address + i)) b) address (i + 1) bytes

unfoldable pub set_memory : State → ℕ → List ℕ → State
unfolding write_bytes
set_memory s address bytes = record s { memory = write_bytes s.memory address 0 bytes }

unfoldable pub get_register : State → ℕ → Run Immediate
get_register s index = at s.registers index

unfoldable pub set_register : State → ℕ → Immediate → State
set_register s index v = record s { registers = update s.registers index (some v) }

-- The handlers that read two operands, compute, and write the result.
binary : (Immediate → Immediate → Run Immediate) → State → Instruction → Run State
binary compute s ri = do
  a ← get_operand s ri.input0
  b ← get_operand s ri.input1
  r ← compute a b
  set_operand s ri.output r

bisz : State → Instruction → Run State
bisz s ri = do
  a ← get_operand s ri.input0
  nonzero ← Immediate.to_bool a
  set_operand s ri.output (Immediate.from_value (operand_size ri.output) (if nonzero then 0 else 1))

-- The target of a taken jump: an offset into the translation, or an address, which ends it.
jump_to : State → Operand → Run State
jump_to s (offset o) = ok (record s { offset = o })
jump_to s target = do
  a ← get_operand s target
  ok (record s { pc = Immediate.to_uint64 a; offset = 0xffff })

jcc : State → Instruction → Run State
unfolding jump_to
jcc s ri = do
  a ← get_operand s ri.input0
  let jumped = jump_to s ri.output
  taken ← Immediate.to_bool a
  (if taken then jumped else ok s)

ldm : State → Instruction → Run State
ldm s ri = do
  a ← get_operand s ri.input0
  let bytes = get_memory s (Immediate.to_uint64 a) (operand_size ri.output / 8)
  set_operand s ri.output (Immediate.from_bytes bytes (length bytes))

stm : State → Instruction → Run State
stm s ri = do
  a ← get_operand s ri.input0
  b ← get_operand s ri.output
  ok (set_memory s (Immediate.to_uint64 b) a)

-- `Str` and `Sex` differ in how they widen.
resized : (Immediate → ℕ → Run Immediate) → State → Instruction → Run State
resized widen s ri = do
  a ← get_operand s ri.input0
  let result_size = operand_size ri.output
  let narrow = Immediate.Shift.extract a result_size 0
  let wide = widen a result_size
  r ←
      (if ltb result_size (Immediate.size a)
        then narrow
        else if ltb (Immediate.size a) result_size
        then wide
        else ok a)
  set_operand s ri.output r

equ : State → Instruction → Run State
equ s ri = do
  a ← get_operand s ri.input0
  b ← get_operand s ri.input1
  same ← Immediate.equal a b
  set_operand s ri.output (Immediate.from_value (operand_size ri.output) (if same then 1 else 0))

-- The computation of `Ashr`; the mask's shift is `size - (uint64_t)b` as a `uint16_t`.
unfoldable pub shift_arithmetic : Immediate → Immediate → Run Immediate
shift_arithmetic a b = do
  let size = Immediate.size a
  sign ← Immediate.Logic.and (Immediate.Shift.sign_bit size size) a
  let shifted = Immediate.Shift.shr_by a b
  let ones =
      Immediate.Shift.shl (Immediate.Shift.mask size size)
        (u16 (u64 (size + 2 ^ 64 - Immediate.to_uint64 b)))
  let filled = Immediate.Logic.or shifted ones
  negative ← Immediate.to_bool sign
  (if negative then filled else ok shifted)

ite : State → Instruction → Run State
ite s ri = do
  cond ← get_operand s ri.input0
  if_value ← get_operand s ri.input1
  else_value ← get_operand s ri.input2
  chosen ← Immediate.to_bool cond
  set_operand s ri.output (if chosen then if_value else else_value)

-- The handler of an opcode. `Bsh`, `Nop`, `Undef`, `Unkn` and `Sys` do nothing.
unfoldable pub handle : Opcode → State → Instruction → Run State
unfolding binary bisz jcc ldm stm resized equ ite
handle Opcode.add = binary Immediate.Arith.Add.add
handle Opcode.and = binary Immediate.Logic.and
handle Opcode.bisz = bisz
handle Opcode.bsh = λ s ri. ok s
handle Opcode.div = binary Immediate.Arith.Div.div
handle Opcode.jcc = jcc
handle Opcode.ldm = ldm
handle Opcode.modulus = binary Immediate.Arith.Div.modulus
handle Opcode.mul = binary Immediate.Arith.Mul.mul
handle Opcode.nop = λ s ri. ok s
handle Opcode.or = binary Immediate.Logic.or
handle Opcode.stm = stm
handle Opcode.str = resized (λ a size. ok (Immediate.zero_extend a size))
handle Opcode.sub = binary Immediate.Arith.Add.sub
handle Opcode.undef = λ s ri. ok s
handle Opcode.unkn = λ s ri. ok s
handle Opcode.xor = binary Immediate.Logic.xor
handle Opcode.equ = equ
handle Opcode.lshl = binary (λ a b. ok (Immediate.Shift.shl_by a b))
handle Opcode.lshr = binary (λ a b. ok (Immediate.Shift.shr_by a b))
handle Opcode.ashr = binary shift_arithmetic
handle Opcode.sex = resized Immediate.sign_extend
handle Opcode.sys = λ s ri. ok s
handle Opcode.ite = ite

-- `SingleStep`; an offset behind the last instruction is an access outside the vector.
unfoldable pub single_step : State → Run State
single_step s = elim (get_elem? s.instructions s.offset) [
  | none ↦ fault undefined
  | some ri ↦ handle ri.opcode (record s { offset = u16 (s.offset + 1) }) ri
]

unfoldable pub start : State → NativeInstruction → Run State
start s ni = do
  check (ltb (length ni.reil) 0xffff) check_failed
  ok (record s { instructions = ni.reil; offset = 0; pc = ni.address; temporaries = λ _. none })

-- The loop of `Execute`, on fuel.
unfoldable pub run_loop : ℕ → State → Run State
run_loop zero s = fault out_of_fuel
run_loop (suc fuel) s =
    let rest = single_step s >>= run_loop fuel in
    if ltb s.offset (length s.instructions) then rest else ok s

-- The state behind `Execute`, whose `pc` is what it returns.
unfoldable pub execute : ℕ → State → NativeInstruction → Run State
execute fuel s ni = do
  s₀ ← start s ni
  s₁ ← run_loop fuel s₀
  ok (if s₁.offset == 0xffff then s₁ else record s₁ { pc = u64 (ni.address + ni.size) })
