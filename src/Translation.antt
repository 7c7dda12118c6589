-- ===== src/Translation.antt =====
-- reil/translation.h and reil/translation.cpp: the class `Translation`, by which the translators
-- make REIL instructions. `reserve` and `ReserveInstructions` have no effect on the result.
pub mod Finalise
pub mod Methods
use reil.Base.{
  ℕ, ◌+◌, ◌*◌, ◌/◌, ◌%◌, ◌==◌, not, Bool, List, [], ◌∷◌, ◌++◌, if◌then◌else◌, u8, u16, Run, ok,
  fault, Fault, aborted,
}
use reil.Immediate.{from_value}
use reil.Immediate.Shift.{mask, sign_bit, signed_max}
use reil.Instruction.{
  Operand, Instruction, immediate, temporary, label, operand_size, jump_hint, call_hint,
  return_hint,
}
use reil.Instruction.Build

pub record Translation : Type 0 where
  pub flags : ℕ
  pub tmp_index : ℕ
  pub label_index : ℕ
  pub translation : List Instruction

-- `Translation::Translation`
abbrev pub new_translation : ℕ → Translation
new_translation flags = record { flags = flags; tmp_index = 0; label_index = 0; translation = [] }

-- A method: it changes the translation and returns a result, or aborts.
abbrev pub Method : Type 0 → Type 0
Method A = Translation → Run (A × Translation)

infixl 5 ◌>>=◌ ◌>>◌
abbrev pub ◌>>=◌ : {A B : Type 0} → Method A → (A → Method B) → Method B
m >>= next = λ t. elim (m t) [ ok (a, changed) ↦ next a changed | fault why ↦ fault why ]

abbrev pub ◌>>◌ : {B : Type 0} → Method Unit → Method B → Method B
m >> next = m >>= λ _. next

abbrev pub return : {A : Type 0} → A → Method A
return a = λ t. ok (a, t)

-- `flags_ & kPureReil`
abbrev pub pure_reil : Translation → Bool
pure_reil t = not (t.flags / 2 % 2 == 0)

-- `translation_.push_back`
unfoldable pub push : Instruction → Method Unit
push ri = λ t. ok (tt, record t { translation = t.translation ++ ri ∷ [] })

-- Most methods add an instruction and return its output.
abbrev pub emit : Instruction → Operand → Method Operand
emit ri output = push ri >> return output

unfoldable pub tmp : ℕ → Method Operand
tmp size = λ t. ok (
  temporary (record { size = size; index = t.tmp_index }),
  record t { tmp_index = u16 (t.tmp_index + 1) },
)

unfoldable pub new_label : Method Operand
new_label = λ t. ok (label t.label_index, record t { label_index = u8 (t.label_index + 1) })

-- `Imm(size, value)`
abbrev pub constant : ℕ → ℕ → Operand
constant size value = immediate (from_value size value)

unfoldable pub ite : Operand → Operand → Operand → Operand → Method Operand
ite input0 input1 input2 output = λ t.
    if pure_reil t then fault aborted else emit (Build.ite input0 input1 input2 output) output t

unfoldable pub bisz : Operand → Operand → Method Operand
bisz input0 output = λ t.
    if pure_reil t
    then emit (Build.bisz input0 output) output t
    else ite input0 (constant (operand_size output) 0) (constant (operand_size output) 1) output t

unfoldable pub bisnz : Operand → Operand → Method Operand
bisnz input0 output = λ t.
    if pure_reil t
    then (do byte ← tmp 8; zero ← bisz input0 byte; bisz zero output) t
    else ite input0 (constant (operand_size output) 1) (constant (operand_size output) 0) output t

unfoldable pub jcc_hint : Operand → Operand → Operand → Method Unit
jcc_hint input0 input1 output = λ t.
    push (if pure_reil t then Build.jcc input0 output else Build.jcc_hint input0 input1 output) t

-- The two forms of `Jump`.
unfoldable pub jump_if : Operand → Operand → Method Unit
jump_if input0 output = jcc_hint input0 (immediate jump_hint) output

unfoldable pub jump : Operand → Method Unit
jump output = jcc_hint (constant 8 1) (immediate jump_hint) output

unfoldable pub call : Operand → Method Unit
call output = jcc_hint (constant 8 1) (immediate call_hint) output

unfoldable pub returns : Operand → Method Unit
returns output = jcc_hint (constant 8 1) (immediate return_hint) output

-- `Not(input0, output)`
unfoldable pub not_into : Operand → Operand → Method Operand
not_into input0 output =
    emit (Build.xor input0 (immediate (mask (operand_size input0) (operand_size input0))) output)
      output

-- A method whose output is a new temporary: of the given size.
abbrev pub to_new : ℕ → (Operand → Method Operand) → Method Operand
to_new size m = do output ← tmp size; m output

-- The size of the results of `Add`, `Mul`, `Smul` and `Sub`.
abbrev pub double : Operand → ℕ
double a = u16 (operand_size a * 2)

-- `Add`, `Mul`, `And`, `Or` and `Div` with a new temporary, as the methods below call them.
unfoldable pub new_add : Operand → Operand → Method Operand
new_add a b = to_new (double a) (λ output. emit (Build.add a b output) output)

unfoldable pub new_mul : Operand → Operand → Method Operand
new_mul a b = to_new (double a) (λ output. emit (Build.mul a b output) output)

unfoldable pub new_and : Operand → Operand → Method Operand
new_and a b = to_new (operand_size a) (λ output. emit (Build.and a b output) output)

unfoldable pub new_or : Operand → Operand → Method Operand
new_or a b = to_new (operand_size a) (λ output. emit (Build.or a b output) output)

unfoldable pub new_not : Operand → Method Operand
new_not a = to_new (operand_size a) (not_into a)

unfoldable pub new_str : ℕ → Operand → Method Operand
new_str size a = to_new size (λ output. emit (Build.str a output) output)

-- The arguments of a call, whose order C++ leaves open, are evaluated from left to right here.
unfoldable pub smul : Operand → Operand → Operand → Method Operand
smul input0 input1 output = do
  left ← to_new (double input0) (λ o. emit (Build.sex input0 o) o)
  right ← to_new (double input0) (λ o. emit (Build.sex input1 o) o)
  product ← new_mul left right
  new_str (double input0) product

unfoldable pub signed_to_unsigned : Operand → Method (Operand × Operand)
signed_to_unsigned value = do
  let size = operand_size value
  sign ← new_and value (immediate (sign_bit size size))
  negative ← to_new size (bisnz sign)
  complement ← new_not value
  sum ← new_add complement (constant size 1)
  opposite ← new_str size sum
  negated ← new_mul negative opposite
  negative_value ← new_str size negated
  positive ← to_new size (bisz sign)
  magnitude ← new_and value (immediate (signed_max size size))
  kept ← new_mul positive magnitude
  positive_value ← new_str size kept
  result ← new_or negative_value positive_value
  return (result, negative)

unfoldable pub unsigned_to_signed : Operand → Operand → Method Operand
unsigned_to_signed value sign = do
  let size = operand_size value
  positive ← to_new size (bisz sign)
  magnitude ← new_and value (immediate (signed_max size size))
  complement ← new_not value
  sum ← new_add complement (constant size 1)
  opposite ← new_str size sum
  negated ← new_mul sign opposite
  negative_value ← new_str size negated
  kept ← new_mul positive magnitude
  positive_value ← new_str size kept
  to_new size (λ output. emit (Build.or negative_value positive_value output) output)

unfoldable pub sdiv : Operand → Operand → Operand → Method Operand
sdiv input0 input1 output = do
  let size = operand_size input0
  left ← signed_to_unsigned input0
  right ← signed_to_unsigned input1
  quotient ← to_new size (λ o. emit (Build.div left.0 right.0 o) o)
  sign ← to_new size (λ o. emit (Build.xor left.1 right.1 o) o)
  result ← unsigned_to_signed quotient sign
  emit (Build.str result output) output
