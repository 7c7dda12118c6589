-- ===== src/Interpreter/Forward.antt =====
-- Translations whose local jumps go forward: `Execute` ends.
use mathlib.Core.Path.{subst}
use mathlib.Core.Option.{some-injective}
use native.Mathlib.Decide.{dec_lt}
use reil.Base.{
  ℕ, zero, suc, ◌+◌, ◌-◌, if◌then◌else◌, ◌≤◌, ◌<◌, ◌≡◌, ◌⊎◌, refl, ap, sym, ◌∙◌, inl, inr, some,
  none, u16, u64, ◌==◌, List, [], ◌∷◌, length, Run, ok, fault, Fault, ◌>>=◌, get_elem?, arith,
  lt→ltb, le→ltb,
}
use reil.Immediate
use reil.Instruction.{
  Opcode, Operand, Instruction, NativeInstruction, no_operand, immediate, offset, register,
  temporary, label,
}
use reil.Interpreter.{
  State, get_operand, jump_to, jcc, handle, single_step, start, run_loop, execute,
}
use reil.Interpreter.Frame.{
  Ensures, Ensures-bind, Ensures-if, Keeps, single_step-Keeps, single_step-handle, Ensures-both,
  Ensures-map,
}

-- The operand is no offset, or one behind index `i`.
abbrev pub IsLater : ℕ → Operand → Type 0
IsLater i (offset o) = i < o
IsLater i _ = Unit

-- Every jump to an offset goes forward; `i` is the index of the first instruction.
abbrev pub IsForward : ℕ → List Instruction → Type 0
IsForward i [] = Unit
IsForward i (ri ∷ rest) = IsLater i ri.output × IsForward (suc i) rest

IsForward-at :
    (l : List Instruction) (i j : ℕ) (ri : Instruction)
    → IsForward i l
    → get_elem? l j ≡ some ri
    → IsLater (i + j) ri.output
IsForward-at [] i j ri h e = cc
IsForward-at (r ∷ l) i zero ri h e =
    let k : i + zero ≡ i = omega arith in
    rw k (subst (λ (t : Instruction). IsLater i t.output) (some-injective _ _ e) h.0)
IsForward-at (r ∷ l) i (suc j) ri h e =
    let k : i + suc j ≡ suc i + j = omega arith in rw k (IsForward-at l (suc i) j ri h.1 e)

get_elem?-lt :
    (l : List Instruction) (j : ℕ) → j < length l → (ri : Instruction) × (get_elem? l j ≡ some ri)
get_elem?-lt [] j h = absurd (omega arith)
get_elem?-lt (r ∷ l) zero h = (r, refl)
get_elem?-lt (r ∷ l) (suc j) h = get_elem?-lt l j (omega arith)

abbrev IsPast : ℕ → State → Type 0
IsPast i s = i < s.offset

jump_to-IsPast :
    (i : ℕ) (s : State) (target : Operand)
    → i < 0xffff
    → IsLater i target
    → Ensures (IsPast i) (jump_to s target)
unfolding jump_to
jump_to-IsPast i s (offset o) small later = later
jump_to-IsPast i s no_operand small later = Ensures-bind _ (get_operand s no_operand) _ λ a. small
jump_to-IsPast i s (immediate v) small later =
    Ensures-bind _ (get_operand s (immediate v)) _ λ a. small
jump_to-IsPast i s (register r) small later =
    Ensures-bind _ (get_operand s (register r)) _ λ a. small
jump_to-IsPast i s (temporary t) small later =
    Ensures-bind _ (get_operand s (temporary t)) _ λ a. small
jump_to-IsPast i s (label l) small later = Ensures-bind _ (get_operand s (label l)) _ λ a. small

jcc-IsPast :
    (i : ℕ) (s : State) (ri : Instruction)
    → i < 0xffff
    → IsLater i ri.output
    → IsPast i s
    → Ensures (IsPast i) (jcc s ri)
unfolding jcc
jcc-IsPast i s ri small later past = Ensures-bind _ (get_operand s ri.input0) _ λ a.
    Ensures-bind _ (Immediate.to_bool a) _ λ taken.
      Ensures-if _ taken (jump_to s ri.output) (ok s) (jump_to-IsPast i s ri.output small later)
        past

Opcode-discrete : Discrete Opcode
Opcode-discrete = hlevel

-- Only `Jcc` needs the shape of its output: every other handler leaves the offset alone.
step-IsPast :
    (s : State) (ri : Instruction)
    → get_elem? s.instructions s.offset ≡ some ri
    → s.offset < 0xffff
    → IsLater s.offset ri.output
    → Ensures (λ s'. (s'.instructions ≡ s.instructions) × (s.offset < s'.offset)) (single_step s)
unfolding handle
step-IsPast s ri e small later = elim (Opcode-discrete ri.opcode Opcode.jcc) [
  | yes is_jcc ↦
      Ensures-both (λ s'. s'.instructions ≡ s.instructions) (IsPast s.offset) (single_step s)
        (Ensures-map (Keeps ri.opcode ri.output next) _ (single_step s) (λ s' k. k.program)
          (single_step-Keeps s ri e))
        (subst (Ensures (IsPast s.offset))
          (sym (single_step-handle s ri e ∙ ap (λ o. handle o next ri) is_jcc))
          (jcc-IsPast s.offset next ri small later ahead))
  | no other ↦
      Ensures-map (Keeps ri.opcode ri.output next) _ (single_step s)
        (λ s' k. (k.program, subst (λ n. s.offset < n) (sym (k.position other).0) ahead))
        (single_step-Keeps s ri e)
]
  where
    next : State
    next = record s { offset = u16 (s.offset + 1) }

    ahead : s.offset < u16 (s.offset + 1)
    ahead = omega arith

-- The number of steps takes the loop of `Execute` from one state to the other.
abbrev pub Steps : ℕ → State → State → Type 0
Steps zero s last = s ≡ last
Steps (suc n) s last =
    (s.offset < length s.instructions)
    × ((next : State) × (single_step s ≡ ok next) × Steps n next last)

-- What the loop returns in its last state: it is behind the last instruction, or its step faults.
abbrev pub Outcome : State → (Run State → Type 0) → Type 0
Outcome last Is =
    ((length last.instructions ≤ last.offset) × Is (ok last))
    ⊎ ((last.offset < length last.instructions)
        × ((e : Fault) × (single_step last ≡ fault e) × Is (fault e)))

-- The loop has ended after at most one step for each instruction from the offset on.
record Ended (s : State) (r : Run State) : Type 0 where
  count : ℕ
  last : State
  within : count ≤ length s.instructions - s.offset
  ran : Steps count s last
  outcome : Outcome last (λ o. r ≡ o)

stopped : (s : State) (r : Run State) → Outcome s (λ o. r ≡ o) → Ended s r
stopped s r o = record { count = 0; last = s; within = omega arith; ran = refl; outcome = o }

step_on :
    (fuel : ℕ) (s : State) (r : Run State)
    → s.offset < length s.instructions
    → single_step s ≡ r
    → Ensures (λ s'. (s'.instructions ≡ s.instructions) × (s.offset < s'.offset)) r
    → ((s' : State)
        → s'.instructions ≡ s.instructions
        → s.offset < s'.offset
        → Ended s' (run_loop fuel s'))
    → Ended s (r >>= run_loop fuel)
step_on fuel s (fault e) inside ran past next = stopped s (fault e) (inr (inside, (e, ran, refl)))
step_on fuel s (ok s') inside ran past next =
    let d = next s' past.0 past.1 in
    record {
      count = suc d.count;
      last = d.last;
      within = omega (arith, d.within, ap length past.0);
      ran = (inside, (s', ran, d.ran));
      outcome = d.outcome;
    }

run_loop-more :
    (fuel : ℕ) (s : State)
    → s.offset < length s.instructions
    → run_loop (suc fuel) s ≡ (single_step s >>= run_loop fuel)
unfolding run_loop
run_loop-more fuel s inside = rw (lt→ltb s.offset (length s.instructions) inside)

run_loop-done :
    (fuel : ℕ) (s : State) → length s.instructions ≤ s.offset → run_loop (suc fuel) s ≡ ok s
unfolding run_loop
run_loop-done fuel s past = rw (le→ltb s.offset (length s.instructions) past)

run_loop-Ended :
    (fuel : ℕ) (s : State)
    → IsForward 0 s.instructions
    → length s.instructions < 0xffff
    → length s.instructions ≤ s.offset + fuel
    → Ended s (run_loop (suc fuel) s)
run_loop-Ended zero s forward short enough =
    stopped s _ (inl (omega arith, run_loop-done zero s (omega arith)))
run_loop-Ended (suc fuel) s forward short enough = elim (dec_lt s.offset (length s.instructions)) [
  | no past ↦ stopped s _ (inl (omega arith, run_loop-done (suc fuel) s (omega arith)))
  | yes inside ↦
      let zero_plus : 0 + s.offset ≡ s.offset = omega arith in
      let (ri, e) = get_elem?-lt s.instructions s.offset inside in
      subst (Ended s) (sym (run_loop-more (suc fuel) s inside)) (
        step_on (suc fuel) s (single_step s) inside refl
          (step-IsPast s ri e (omega arith) (
            subst (λ k. IsLater k ri.output) zero_plus
              (IsForward-at s.instructions 0 s.offset ri forward e)))
          λ s' same ahead.
            run_loop-Ended fuel s' (subst (IsForward 0) (sym same) forward)
              (subst (λ l. length l < 0xffff) (sym same) short)
              (subst (λ l. length l ≤ s'.offset + fuel) (sym same) (omega arith)))
]

-- The state in which the loop of `Execute` starts.
abbrev pub started : State → NativeInstruction → State
started s ni = record s {
  instructions = ni.reil;
  offset = 0;
  pc = ni.address;
  temporaries = λ _. none;
}

-- What `Execute` returns behind its loop: unless a jump to an address was taken, the address is
-- that behind the native instruction.
abbrev pub finished : NativeInstruction → Run State → Run State
finished ni r = r >>= λ last.
    ok (if last.offset == 0xffff then last else record last { pc = u64 (ni.address + ni.size) })

-- `Execute` takes at most as many steps as there are instructions, each from within the translation
-- and without a fault. In the state that it then is in, either the offset is behind the last
-- instruction and `Execute` returns the state, with the address of a taken jump or the address
-- behind the native instruction, or the next step faults, and so does `Execute`.
abbrev pub Ends : ℕ → State → NativeInstruction → Type 0
Ends fuel s ni =
    (count : ℕ) × (last : State) × (count ≤ length ni.reil)
    × Steps count (started s ni) last
    × Outcome last (λ o. execute fuel s ni ≡ finished ni o)

-- A translation of fewer than 0xffff instructions whose jumps to offsets all go forward is executed
-- to its end, `Ends`, with more fuel than it has instructions.
pub execute-Ends :
    (fuel : ℕ) (s : State) (ni : NativeInstruction)
    → IsForward 0 ni.reil
    → length ni.reil < 0xffff
    → length ni.reil < fuel
    → Ends fuel s ni
unfolding execute start
execute-Ends zero s ni forward short enough = absurd (omega arith)
execute-Ends (suc fuel) s ni forward short enough =
    let allowed = lt→ltb (length ni.reil) 0xffff short in
    let d = run_loop-Ended fuel (started s ni) forward short (omega arith) in
    (
      d.count,
      d.last,
      omega (arith, d.within),
      d.ran,
      elim d.outcome [
        | inl (past, ran) ↦ inl (past, rw (allowed, ran) refl)
        | inr (inside, (e, failed, ran)) ↦ inr (inside, (e, failed, rw (allowed, ran) refl))
      ],
    )
