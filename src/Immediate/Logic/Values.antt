-- ===== src/Immediate/Logic/Values.antt =====
-- `&`, `|` and `^` of immediates are those of their values.
use reil.Base.{
  List, ℕ, zero, suc, ◌+◌, ◌*◌, ◌^◌, ◌≡◌, refl, sym, ap, ap₂, ◌∙◌, true, ◌==◌, length, get_or, set,
  ltb, u16, ◌<◌, false, take, drop, All, Returns, arith, length-set, take_all, bit_and, bit_or,
  bit_xor,
}
use Prim.Native.Nat.{min, max, differ}
use reil.Base.Bitwise.{
  IsDigitwise, bit_and-IsDigitwise, bit_or-IsDigitwise, bit_xor-IsDigitwise, op-lt, op-join,
}
use reil.Base.Powers.{pow-bytes}
use reil.Immediate.{Immediate, IsByte, value, all_rounds}
use reil.Immediate.Value.{All-get_or, value-take-suc, value-take-lt}
use reil.Immediate.Write.{read_rest, value-take-set, All-set, drop-suc-set, drop-suc}
use reil.Immediate.Convert.{Bytes}
use reil.Immediate.Logic.{bytewise, and, or, xor}

module _ (op f : ℕ → ℕ → ℕ) (o : IsDigitwise op f) (a b : Immediate) (ha : All IsByte a)
    (hb : All IsByte b) where
  -- The bytes below the index are computed, and those from the index on are as they were.
  record Done (i : ℕ) (out : List ℕ) : Type 0 where
    same_length : length out ≡ length a
    bytes : All IsByte out
    rest : drop i out ≡ drop i a
    computed : value (take i out) ≡ op (value (take i a)) (value (take i b))

  power : (i : ℕ) → 2 ^ (8 * i) ≡ 256 ^ i
  power i =
      let e : 8 * i ≡ 8 * i + 0 = omega arith in
      ap (λ (t : ℕ). 2 ^ t) e ∙ pow-bytes i 0 ∙ omega arith

  written : ℕ → List ℕ → List ℕ
  written i out = set out i (op (get_or out i 0) (get_or b i 0))

  one_more :
      (i : ℕ)
      → op (value (take i a)) (value (take i b)) + 256 ^ i * op (get_or a i 0) (get_or b i 0)
        ≡ op (value (take (suc i) a)) (value (take (suc i) b))
  one_more i =
      rw (value-take-suc i a, value-take-suc i b, ← power i)
        (sym (
          op-join op f o (8 * i) (value (take i a)) (value (take i b)) (get_or a i 0) (get_or b i 0)
            (rw (power i) (value-take-lt i a ha)) (rw (power i) (value-take-lt i b hb))))

  -- A round of the loop.
  Done-step : (i : ℕ) (out : List ℕ) → i < length a → Done i out → Done (suc i) (written i out)
  unfolding written
  Done-step i out inside d = record {
    same_length = length-set out i _ ∙ d.same_length;
    bytes = All-set out i _ d.bytes (
        op-lt op f o 8 (get_or out i 0) (get_or b i 0) (All-get_or out i d.bytes)
          (All-get_or b i hb));
    rest = drop-suc-set out i _ ∙ drop-suc i out ∙ ap (drop 1) d.rest ∙ sym (drop-suc i a);
    computed =
        rw
          (
            value-take-set out i _ (omega (arith, d.same_length)),
            read_rest i out a d.rest,
            d.computed,
          )
          (one_more i);
  }

  bytewise-Done :
      (rounds i : ℕ) (out : List ℕ)
      → i + rounds ≡ length a
      → length a < 2 ^ 16
      → Done i out
      → Returns (bytewise op rounds i out b) (Done (length a))
  unfolding bytewise written
  bytewise-Done zero i out e small d =
      let ended : ltb i (length out) ≡ false = ground (arith, d.same_length) in
      let k : length a ≡ i = omega (arith, e) in (out, rw ended refl, rw k d)
  bytewise-Done (suc rounds) i out e small d =
      let inside : ltb i (length out) ≡ true = ground (arith, d.same_length) in
      let next : u16 (i + 1) ≡ suc i = omega (arith, e) in
      rw (inside, next)
        (bytewise-Done rounds (suc i) (written i out) (omega (arith, e)) small
          (Done-step i out (omega (arith, e)) d))

  Done-Bytes :
      (out : List ℕ)
      → length a ≡ length b
      → Done (length a) out
      → Bytes (length a) (op (value a) (value b)) out
  Done-Bytes out l d = record {
    long = d.same_length;
    bytes = d.bytes;
    valued =
        ap value (sym (take_all out (length a) (omega (arith, d.same_length))))
        ∙ d.computed
        ∙ ap₂ (λ s t. op (value s) (value t)) (take_all a (length a) (omega arith))
            (take_all b (length a) (omega (arith, l)));
  }

  bytewise-Bytes :
      length a ≡ length b
      → length a < 2 ^ 16
      → Returns (bytewise op (all_rounds a) 0 a b) (Bytes (length a) (op (value a) (value b)))
  bytewise-Bytes l small =
      let rounds : all_rounds a ≡ length a = omega arith in
      let start : Done 0 a = record {
        same_length = refl;
        bytes = ha;
        rest = refl;
        computed = sym o.none;
      } in
      let (out, ran, d) = bytewise-Done (length a) 0 a (omega arith) small start in
      rw rounds (out, ran, Done-Bytes out l d)

-- What `&`, `|` and `^` of two immediates compute.
pub record Combines (a b : Immediate) : Type 0 where
  pub conjunction : Returns (and a b) (Bytes (length a) (bit_and (value a) (value b)))
  pub disjunction : Returns (or a b) (Bytes (length a) (bit_or (value a) (value b)))
  pub exclusive : Returns (xor a b) (Bytes (length a) (bit_xor (value a) (value b)))

-- For immediates of one size, of fewer than 65536 bytes, `&`, `|` and `^` end without a fault in an
-- immediate of that size whose value is that of the operation on the values.
pub logic_by_value :
    (a b : Immediate)
    → All IsByte a
    → All IsByte b
    → length a ≡ length b
    → length a < 2 ^ 16
    → Combines a b
unfolding and or xor
logic_by_value a b ha hb l small = record {
  conjunction = rw same (bytewise-Bytes bit_and min bit_and-IsDigitwise a b ha hb l small);
  disjunction = rw same (bytewise-Bytes bit_or max bit_or-IsDigitwise a b ha hb l small);
  exclusive = rw same (bytewise-Bytes bit_xor differ bit_xor-IsDigitwise a b ha hb l small);
}
  where
    same : (length a == length b) ≡ true
    same = ground arith
