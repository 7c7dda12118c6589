-- ===== src/Interpreter/Frame.antt =====
-- What a step leaves alone.
use mathlib.Core.Path.{subst, sym}
use reil.Base.{
  ℕ, ◌+◌, ◌≡◌, ◌≢◌, refl, ap, Bool, true, false, some, if◌then◌else◌, u16, ltb, Run, ok, fault,
  ◌>>=◌, get_elem?, arith,
}
use reil.Immediate
use reil.Immediate.{Immediate}
use reil.Instruction.{
  Opcode, Operand, Instruction, no_operand, immediate, offset, register, temporary, label,
  operand_size,
}
use reil.Interpreter.{
  State, get_operand, set_operand, binary, bisz, jump_to, jcc, ldm, stm, set_memory, resized, equ,
  ite, handle, single_step, shift_arithmetic,
}

-- A property of the state behind a run that ends without a fault.
abbrev pub Ensures {ℓ κ} : {A : Type ℓ} → (A → Type κ) → Run A → Type κ
Ensures P (ok a) = P a
Ensures P (fault e) = Unit

pub Ensures-both {ℓ κ ι} :
    {A : Type ℓ} (P : A → Type κ) (Q : A → Type ι) (r : Run A)
    → Ensures P r
    → Ensures Q r
    → Ensures (λ a. P a × Q a) r
Ensures-both P Q (ok a) p q = (p, q)
Ensures-both P Q (fault e) p q = tt

pub Ensures-map {ℓ κ ι} :
    {A : Type ℓ} (P : A → Type κ) (Q : A → Type ι) (r : Run A)
    → ((a : A) → P a → Q a)
    → Ensures P r
    → Ensures Q r
Ensures-map P Q (ok a) f p = f a p
Ensures-map P Q (fault e) f p = tt

pub Ensures-bind {ℓ κ ι} :
    {A : Type ℓ} {B : Type κ} (P : B → Type ι) (m : Run A) (f : A → Run B)
    → ((a : A) → Ensures P (f a))
    → Ensures P (m >>= f)
Ensures-bind P (ok a) f h = h a
Ensures-bind P (fault e) f h = tt

pub Ensures-if {ℓ κ} :
    {A : Type ℓ} (P : A → Type κ) (b : Bool) (x y : Run A)
    → Ensures P x
    → Ensures P y
    → Ensures P (if b then x else y)
Ensures-if P true x y hx hy = hx
Ensures-if P false x y hx hy = hy

abbrev pub IsRegister : ℕ → Operand → Type 0
IsRegister i (register r) = r.index ≡ i
IsRegister i _ = ⊥

abbrev pub IsTemporary : ℕ → Operand → Type 0
IsTemporary i (temporary t) = t.index ≡ i
IsTemporary i _ = ⊥

-- `s'` differs from `s` at most as an instruction of this kind with this output may make it.
pub record Keeps (opcode : Opcode) (output : Operand) (s s' : State) : Type 0 where
  pub program : s'.instructions ≡ s.instructions
  pub position : opcode ≢ Opcode.jcc → (s'.offset ≡ s.offset) × (s'.pc ≡ s.pc)
  pub memory : opcode ≢ Opcode.stm → s'.memory ≡ s.memory
  pub registers : (i : ℕ) → ¬ IsRegister i output → s'.registers i ≡ s.registers i
  pub temporaries : (i : ℕ) → ¬ IsTemporary i output → s'.temporaries i ≡ s.temporaries i

Keeps-refl : (opcode : Opcode) (output : Operand) (s : State) → Keeps opcode output s s
Keeps-refl opcode output s = record {
  program = refl;
  position = λ _. (refl, refl);
  memory = λ _. refl;
  registers = λ i _. refl;
  temporaries = λ i _. refl;
}

set_operand-Keeps :
    (opcode : Opcode) (s : State) (output : Operand) (v : Immediate)
    → Ensures (Keeps opcode output s) (set_operand s output v)
unfolding set_operand
set_operand-Keeps opcode s (register r) v = record {
  program = refl;
  position = λ _. (refl, refl);
  memory = λ _. refl;
  registers = λ i other. ground arith;
  temporaries = λ i _. refl;
}
set_operand-Keeps opcode s (temporary t) v = record {
  program = refl;
  position = λ _. (refl, refl);
  memory = λ _. refl;
  registers = λ i _. refl;
  temporaries = λ i other. ground arith;
}
set_operand-Keeps opcode s no_operand v = tt
set_operand-Keeps opcode s (immediate a) v = tt
set_operand-Keeps opcode s (offset o) v = tt
set_operand-Keeps opcode s (label l) v = tt

module _ (opcode : Opcode) (s : State) (ri : Instruction) where
  binary-Keeps :
      (compute : Immediate → Immediate → Run Immediate)
      → Ensures (Keeps opcode ri.output s) (binary compute s ri)
  unfolding binary
  binary-Keeps compute = Ensures-bind _ (get_operand s ri.input0) _ λ a.
      Ensures-bind _ (get_operand s ri.input1) _
        λ b. Ensures-bind _ (compute a b) _ λ r. set_operand-Keeps opcode s ri.output r

  bisz-Keeps : Ensures (Keeps opcode ri.output s) (bisz s ri)
  unfolding bisz
  bisz-Keeps =
      Ensures-bind _ (get_operand s ri.input0) _ λ a.
        Ensures-bind _ (Immediate.to_bool a) _ λ nonzero. set_operand-Keeps opcode s ri.output _

  ldm-Keeps : Ensures (Keeps opcode ri.output s) (ldm s ri)
  unfolding ldm
  ldm-Keeps = Ensures-bind _ (get_operand s ri.input0) _ λ a. set_operand-Keeps opcode s ri.output _

  resized-Keeps :
      (widen : Immediate → ℕ → Run Immediate)
      → Ensures (Keeps opcode ri.output s) (resized widen s ri)
  unfolding resized
  resized-Keeps widen = Ensures-bind _ (get_operand s ri.input0) _ λ a.
      Ensures-bind _
        (if ltb (operand_size ri.output) (Immediate.size a)
          then Immediate.Shift.extract a (operand_size ri.output) 0
          else if ltb (Immediate.size a) (operand_size ri.output)
          then widen a (operand_size ri.output)
          else ok a)
        _ λ r. set_operand-Keeps opcode s ri.output r

  equ-Keeps : Ensures (Keeps opcode ri.output s) (equ s ri)
  unfolding equ
  equ-Keeps = Ensures-bind _ (get_operand s ri.input0) _ λ a.
      Ensures-bind _ (get_operand s ri.input1) _
        λ b. Ensures-bind _ (Immediate.equal a b) _ λ r. set_operand-Keeps opcode s ri.output _

  ite-Keeps : Ensures (Keeps opcode ri.output s) (ite s ri)
  unfolding ite
  ite-Keeps = Ensures-bind _ (get_operand s ri.input0) _ λ a.
      Ensures-bind _ (get_operand s ri.input1) _ λ b.
        Ensures-bind _ (get_operand s ri.input2) _ λ c.
          Ensures-bind _ (Immediate.to_bool a) _ λ chosen. set_operand-Keeps opcode s ri.output _

stm-Keeps : (s : State) (ri : Instruction) → Ensures (Keeps Opcode.stm ri.output s) (stm s ri)
unfolding stm set_memory
stm-Keeps s ri = Ensures-bind _ (get_operand s ri.input0) _ λ a.
    Ensures-bind _ (get_operand s ri.output) _ λ b. record {
      program = refl;
      position = λ _. (refl, refl);
      memory = λ ne. absurd (ne refl);
      registers = λ i _. refl;
      temporaries = λ i _. refl;
    }

moved-Keeps :
    (output : Operand) (s s' : State)
    → (s'.instructions ≡ s.instructions)
      × (s'.memory ≡ s.memory)
      × (s'.registers ≡ s.registers)
      × (s'.temporaries ≡ s.temporaries)
    → Keeps Opcode.jcc output s s'
moved-Keeps output s s' (p, m, r, t) = record {
  program = p;
  position = λ ne. absurd (ne refl);
  memory = λ _. m;
  registers = λ i _. ap (λ f. f i) r;
  temporaries = λ i _. ap (λ f. f i) t;
}

jump_to-Keeps :
    (s : State) (output target : Operand) → Ensures (Keeps Opcode.jcc output s) (jump_to s target)
unfolding jump_to
jump_to-Keeps s output (offset o) = moved-Keeps output s _ (refl, refl, refl, refl)
jump_to-Keeps s output no_operand =
    Ensures-bind _ (get_operand s no_operand) _ λ a. moved-Keeps output s _ (refl, refl, refl, refl)
jump_to-Keeps s output (immediate v) =
    Ensures-bind _ (get_operand s (immediate v)) _
      λ a. moved-Keeps output s _ (refl, refl, refl, refl)
jump_to-Keeps s output (register r) =
    Ensures-bind _ (get_operand s (register r)) _
      λ a. moved-Keeps output s _ (refl, refl, refl, refl)
jump_to-Keeps s output (temporary t) =
    Ensures-bind _ (get_operand s (temporary t)) _
      λ a. moved-Keeps output s _ (refl, refl, refl, refl)
jump_to-Keeps s output (label l) =
    Ensures-bind _ (get_operand s (label l)) _ λ a. moved-Keeps output s _ (refl, refl, refl, refl)

jcc-Keeps : (s : State) (ri : Instruction) → Ensures (Keeps Opcode.jcc ri.output s) (jcc s ri)
unfolding jcc
jcc-Keeps s ri = Ensures-bind _ (get_operand s ri.input0) _ λ a.
    Ensures-bind _ (Immediate.to_bool a) _ λ taken.
      Ensures-if _ taken (jump_to s ri.output) (ok s) (jump_to-Keeps s ri.output ri.output)
        (Keeps-refl Opcode.jcc ri.output s)

handle-Keeps :
    (opcode : Opcode) (s : State) (ri : Instruction)
    → Ensures (Keeps opcode ri.output s) (handle opcode s ri)
unfolding handle
handle-Keeps Opcode.add s ri = binary-Keeps Opcode.add s ri Immediate.Arith.Add.add
handle-Keeps Opcode.and s ri = binary-Keeps Opcode.and s ri Immediate.Logic.and
handle-Keeps Opcode.bisz s ri = bisz-Keeps Opcode.bisz s ri
handle-Keeps Opcode.div s ri = binary-Keeps Opcode.div s ri Immediate.Arith.Div.div
handle-Keeps Opcode.jcc s ri = jcc-Keeps s ri
handle-Keeps Opcode.ldm s ri = ldm-Keeps Opcode.ldm s ri
handle-Keeps Opcode.modulus s ri = binary-Keeps Opcode.modulus s ri Immediate.Arith.Div.modulus
handle-Keeps Opcode.mul s ri = binary-Keeps Opcode.mul s ri Immediate.Arith.Mul.mul
handle-Keeps Opcode.or s ri = binary-Keeps Opcode.or s ri Immediate.Logic.or
handle-Keeps Opcode.stm s ri = stm-Keeps s ri
handle-Keeps Opcode.str s ri =
    resized-Keeps Opcode.str s ri (λ a size. ok (Immediate.zero_extend a size))
handle-Keeps Opcode.sub s ri = binary-Keeps Opcode.sub s ri Immediate.Arith.Add.sub
handle-Keeps Opcode.xor s ri = binary-Keeps Opcode.xor s ri Immediate.Logic.xor
handle-Keeps Opcode.equ s ri = equ-Keeps Opcode.equ s ri
handle-Keeps Opcode.lshl s ri =
    binary-Keeps Opcode.lshl s ri (λ a b. ok (Immediate.Shift.shl_by a b))
handle-Keeps Opcode.lshr s ri =
    binary-Keeps Opcode.lshr s ri (λ a b. ok (Immediate.Shift.shr_by a b))
handle-Keeps Opcode.ashr s ri = binary-Keeps Opcode.ashr s ri shift_arithmetic
handle-Keeps Opcode.sex s ri = resized-Keeps Opcode.sex s ri Immediate.sign_extend
handle-Keeps Opcode.ite s ri = ite-Keeps Opcode.ite s ri
handle-Keeps Opcode.bsh s ri = Keeps-refl Opcode.bsh ri.output s
handle-Keeps Opcode.nop s ri = Keeps-refl Opcode.nop ri.output s
handle-Keeps Opcode.undef s ri = Keeps-refl Opcode.undef ri.output s
handle-Keeps Opcode.unkn s ri = Keeps-refl Opcode.unkn ri.output s
handle-Keeps Opcode.sys s ri = Keeps-refl Opcode.sys ri.output s

pub single_step-handle :
    (s : State) (ri : Instruction)
    → get_elem? s.instructions s.offset ≡ some ri
    → single_step s ≡ handle ri.opcode (record s { offset = u16 (s.offset + 1) }) ri
unfolding single_step
single_step-handle s ri e = rw (e, single_step)

-- A step that ends without a fault changes at most the register or the temporary that its
-- instruction's output names, memory only for `Stm`, the address and any other offset than the
-- next one only for `Jcc`, and never the instructions.
pub single_step-Keeps :
    (s : State) (ri : Instruction)
    → get_elem? s.instructions s.offset ≡ some ri
    → Ensures (Keeps ri.opcode ri.output (record s { offset = u16 (s.offset + 1) })) (single_step s)
single_step-Keeps s ri e =
    subst (Ensures (Keeps ri.opcode ri.output (record s { offset = u16 (s.offset + 1) })))
      (sym (single_step-handle s ri e))
      (handle-Keeps ri.opcode (record s { offset = u16 (s.offset + 1) }) ri)
