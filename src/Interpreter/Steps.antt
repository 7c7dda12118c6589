-- ===== src/Interpreter/Steps.antt =====
-- Steps of single instructions.
use mathlib.Core.List.{append-nil}
use mathlib.Core.Path.{subst}
use reil.Base.{
  ap₂, ◌++◌, take_all, drop_all, length-replicate, ℕ, ◌+◌, ◌-◌, ◌*◌, ◌/◌, ◌%◌, ◌^◌, ◌≤◌, ◌<◌, ◌≡◌,
  Option, refl, sym, ap, ◌∙◌, some, u16, length, All, Run, ok, ◌>>=◌, get_elem?, arith, Returns,
}
use reil.Immediate.Arith.Add.{add, sub}
use reil.Immediate.{IsByte, Immediate, value, from_bytes, zeros, to_uint64}
use reil.Immediate.Convert.{Bytes}
use reil.Immediate.Arith.Add.Sums.{add-value, sub-value}
use reil.Instruction.{
  Opcode, Operand, Register, Instruction, no_operand, immediate, offset, temporary, label, register,
  operand_size,
}
use reil.Interpreter.{
  update, at, State, get_operand, set_operand, get_register, get_memory, set_memory, binary, ldm,
  stm, handle, single_step,
}
use reil.Interpreter.Frame.{single_step-handle}
use reil.Interpreter.Memory.{get_memory-set_memory}

at-some : (m : ℕ → Option Immediate) (k : ℕ) (v : Immediate) → m k ≡ some v → at m k ≡ ok v
at-some m k v e = rw (e, at) refl

update-same : (m : ℕ → Option Immediate) (k : ℕ) (v : Immediate) → update m k (some v) k ≡ some v
update-same m k v = ground arith

-- What `set_operand` writes to a register is read back.
get_register-set_operand :
    (s : State) (r : Register) (v : Immediate)
    → Returns
        (set_operand s (register r) v)
        (λ s'. (get_register s' r.index ≡ ok v) × (s'.offset ≡ s.offset))
unfolding get_register set_operand
get_register-set_operand s r v = (
  record s { registers = _ },
  refl,
  (
    at-some (update s.registers r.index (some v)) r.index v (update-same s.registers r.index v),
    refl,
  ),
)

-- The register holds, after the step, an immediate of twice the size of `a` with the value `v`.
abbrev pub Writes : Immediate → ℕ → Register → State → State → Type 0
Writes a v r s s' =
    Returns (get_register s' r.index) (Bytes (2 * length a) v) × (s'.offset ≡ u16 (s.offset + 1))

-- Reading an operand does not depend on the position or the memory.
get_operand-elsewhere :
    (s : State) (memory : ℕ → ℕ) (o : ℕ) (op : Operand)
    → get_operand (record s { memory = memory; offset = o }) op ≡ get_operand s op
unfolding get_operand
get_operand-elsewhere s memory o no_operand = refl
get_operand-elsewhere s memory o (immediate a) = refl
get_operand-elsewhere s memory o (offset t) = refl
get_operand-elsewhere s memory o (register r) = refl
get_operand-elsewhere s memory o (temporary t) = refl
get_operand-elsewhere s memory o (label l) = refl

binary-Writes :
    (compute : Immediate → Immediate → Run Immediate) (s : State) (ri : Instruction) (r : Register)
    (a b : Immediate) (v : ℕ)
    → ri.output ≡ register r
    → get_operand s ri.input0 ≡ ok a
    → get_operand s ri.input1 ≡ ok b
    → Returns (compute a b) (Bytes (2 * length a) v)
    → Returns (binary compute (record s { offset = u16 (s.offset + 1) }) ri) (Writes a v r s)
unfolding binary
binary-Writes compute s ri r a b v out e0 e1 (c, ran, good) =
    let next : State = record s { offset = u16 (s.offset + 1) } in
    let (s', stored, (kept, here)) = get_register-set_operand next r c in
    (
      s',
      rw
          (
            get_operand-elsewhere s s.memory (u16 (s.offset + 1)) ri.input0,
            get_operand-elsewhere s s.memory (u16 (s.offset + 1)) ri.input1,
            e0,
            e1,
            ran,
            out,
          )
          stored,
      ((c, kept, good), here),
    )

module _ (s : State) (ri : Instruction) (r : Register) (a b : Immediate)
    (here : get_elem? s.instructions s.offset ≡ some ri) (out : ri.output ≡ register r)
    (e0 : get_operand s ri.input0 ≡ ok a) (e1 : get_operand s ri.input1 ≡ ok b) (ha : All IsByte a)
    (hb : All IsByte b) (l : length a ≡ length b) (pos : 0 < length a)
    (small : length a < 128) where
  -- A step of `Add` into a register, on operands of one size, from 1 to 127 bytes, ends without a
  -- fault behind the instruction; the register then holds the sum in twice the size.
  pub single_step-add :
      ri.opcode ≡ Opcode.add → Returns (single_step s) (Writes a (value a + value b) r s)
  unfolding handle
  single_step-add is_add =
      rw
        (single_step-handle s ri here
          ∙ ap (λ o. handle o (record s { offset = u16 (s.offset + 1) }) ri) is_add)
        (binary-Writes add s ri r a b _ out e0 e1 (add-value a b ha hb l pos small))

  -- A step of `Sub` into a register, on operands of one size, from 1 to 127 bytes, ends without a
  -- fault behind the instruction; the register then holds the difference modulo twice the size.
  pub single_step-sub :
      ri.opcode ≡ Opcode.sub
      → Returns
          (single_step s)
          (Writes a ((value a + 256 ^ (2 * length a) - value b) % 256 ^ (2 * length a)) r s)
  unfolding handle
  single_step-sub is_sub =
      rw
        (single_step-handle s ri here
          ∙ ap (λ o. handle o (record s { offset = u16 (s.offset + 1) }) ri) is_sub)
        (binary-Writes sub s ri r a b _ out e0 e1 (sub-value a b ha hb l pos small))

from_bytes-all : (a : Immediate) → from_bytes a (length a) ≡ a
unfolding from_bytes
from_bytes-all a =
    ap₂ ◌++◌ (take_all a (length a) (omega arith)) (
      drop_all (zeros (length a)) (length a) (omega (arith, length-replicate {A = ℕ} (length a) 0)))
    ∙ append-nil a

ldm-reads :
    (s : State) (ri : Instruction) (r : Register) (p v : Immediate)
    → ri.output ≡ register r
    → r.size / 8 ≡ length v
    → get_operand s ri.input0 ≡ ok p
    → get_memory s (to_uint64 p) (length v) ≡ v
    → Returns (ldm s ri) (λ s'. get_register s' r.index ≡ ok v)
unfolding ldm operand_size
ldm-reads s ri r p v out long e0 read =
    let (s', stored, (kept, here)) = get_register-set_operand s r v in
    (s', rw (e0, out, long, read, from_bytes-all v) stored, kept)

module _ (s : State) (st ld : Instruction) (r : Register) (p q v : Immediate)
    (here : get_elem? s.instructions s.offset ≡ some st)
    (next : get_elem? s.instructions (s.offset + 1) ≡ some ld) (small : s.offset < 0xffff)
    (is_stm : st.opcode ≡ Opcode.stm) (is_ldm : ld.opcode ≡ Opcode.ldm)
    (e0 : get_operand s st.input0 ≡ ok v) (e1 : get_operand s st.output ≡ ok p)
    (e2 : get_operand s ld.input0 ≡ ok q) (same : to_uint64 q ≡ to_uint64 p)
    (out : ld.output ≡ register r) (long : r.size / 8 ≡ length v) (fits : length v ≤ 2 ^ 64) where
  after : State
  after = set_memory (record s { offset = u16 (s.offset + 1) }) (to_uint64 p) v

  store : single_step s ≡ ok after
  unfolding handle stm after
  store =
      single_step-handle s st here
      ∙ ap (λ o. handle o (record s { offset = u16 (s.offset + 1) }) st) is_stm
      ∙ rw
          (
            get_operand-elsewhere s s.memory (u16 (s.offset + 1)) st.input0,
            get_operand-elsewhere s s.memory (u16 (s.offset + 1)) st.output,
            e0,
            e1,
          )
          refl

  load : Returns (single_step after) (λ s'. get_register s' r.index ≡ ok v)
  unfolding handle after set_memory get_memory
  load =
      subst (λ (x : Run State). Returns x (λ s'. get_register s' r.index ≡ ok v))
        (sym (
          single_step-handle after ld (ap (get_elem? s.instructions) ahead ∙ next)
          ∙ ap (λ o. handle o (record after { offset = u16 (after.offset + 1) }) ld) is_ldm))
        (ldm-reads (record after { offset = u16 (after.offset + 1) }) ld r q v out long
          (get_operand-elsewhere s after.memory (u16 (after.offset + 1)) ld.input0 ∙ e2)
          (rw same (get_memory-set_memory s (to_uint64 p) v fits).0))
    where
      ahead : u16 (s.offset + 1) ≡ s.offset + 1
      ahead = omega (arith, small)

  -- A step of `Stm` and then one of `Ldm` from the same address, into a register of the size of the
  -- value, end without a fault; the register then holds the value that was stored.
  pub store-load : Returns (single_step s >>= single_step) (λ s'. get_register s' r.index ≡ ok v)
  store-load = rw store load
