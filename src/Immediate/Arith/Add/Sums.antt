-- ===== src/Immediate/Arith/Add/Sums.antt =====
-- What `+` and `-` compute, and that they do not end on operands of 128 bytes or more.
use native.Mathlib.Nat.{mod-eq_of_lt, one-le-pow, pow-suc}
use mathlib.Core.List.{append_assoc}
use reil.Base.{
  true, ℕ, zero, suc, ◌+◌, ◌-◌, ◌*◌, ◌/◌, ◌%◌, ◌^◌, ◌≤◌, ◌<◌, ◌≡◌, refl, ap, ap₂, sym, ◌∙◌, List,
  ◌∷◌, ◌++◌, lt→ltb, u16, length, set, take, replicate, All, ok, Returns, arith, length-set,
  length-append, length-take, length-replicate, All-append, All-take, All-replicate, take_all, ◌==◌,
}
use reil.Base.Powers.{pow-add}
use reil.Immediate.{Immediate, IsByte, value, from_value, size, zeros}
use reil.Immediate.Value.{value-append, value-replicate_zero, value_injective, value-lt, mod_unique}
use reil.Immediate.Convert.{Bytes, from_value_lem}
use reil.Immediate.Arith.Add.{add, sub, loop_fuel, add_low, sub_low, add_with, sub_with}
use reil.Immediate.Arith.Add.Loops.{Partial, fill_lem, add_low-Sum, sub_low-Difference}
use reil.Immediate.Write.{take-suc-set}

pub from_value-zero : (s : ℕ) → from_value s 0 ≡ zeros (s / 8)
from_value-zero s =
    let b = from_value_lem s 0 (omega arith) in
    value_injective (from_value s 0) (zeros (s / 8)) b.bytes
      (All-replicate IsByte (s / 8) 0 (omega arith)) (b.long ∙ sym (length-replicate (s / 8) 0))
      (b.valued
        ∙ mod-eq_of_lt (one-le-pow (s / 8) 256 (omega arith))
        ∙ sym (value-replicate_zero (s / 8)))

result_zeros : (n : ℕ) → n < 4096 → u16 (u16 (n * 8) * 2) / 8 ≡ 2 * n
result_zeros n h = omega arith

pub start_zeros :
    (a : Immediate) → length a < 4096 → from_value (u16 (size a * 2)) 0 ≡ zeros (2 * length a)
unfolding size
start_zeros a h = from_value-zero (u16 (size a * 2)) ∙ ap zeros (result_zeros (length a) h)

Partial-zeros : (n : ℕ) → Partial (zeros n) 0 (zeros n)
Partial-zeros n = record {
  same_length = refl;
  bytes = All-replicate IsByte n 0 (omega arith);
  rest = refl;
}

-- `n` bytes and a tail: the layout of a result of `m` bytes.
Bytes-append :
    (n m : ℕ) (low tail : List ℕ)
    → length low ≡ n
    → length tail ≡ m - n
    → n ≤ m
    → All IsByte low
    → All IsByte tail
    → Bytes m (value low + 256 ^ n * value tail) (low ++ tail)
Bytes-append n m low tail el et le hl ht = record {
  long = rw (length-append, el, et) (omega arith);
  bytes = All-append IsByte low tail hl ht;
  valued = rw (value-append, el);
}

value-replicate_scaled : (n w : ℕ) → value (replicate n (255 * w)) + w ≡ 256 ^ n * w
value-replicate_scaled zero w = omega arith
value-replicate_scaled (suc n) w =
    omega (arith, value-replicate_scaled n w, ap (λ (t : ℕ). t * w) (pow-suc 256 n))

-- A difference that wraps once or not at all.
wrapped : (v w q borrow t : ℕ) → borrow ≤ 1 → t + w ≡ v + q * borrow → t < q → (v + q - w) % q ≡ t
wrapped v w q zero t h e fits =
    let e' : v + q - w ≡ t + q * 1 = omega arith in rw e' (mod_unique q 1 t fits)
wrapped v w q (suc zero) t h e fits =
    let e' : v + q - w ≡ t = omega arith in rw e' (mod-eq_of_lt fits)
wrapped v w q (suc (suc b)) t h e fits = absurd (omega arith)

-- The value of a difference's bytes with the borrow filled in above.
filled :
    (n w low v u : ℕ)
    → low + u ≡ v + 256 ^ n * w
    → low + 256 ^ n * value (replicate (2 * n - n) (255 * w)) + u ≡ v + 256 ^ (2 * n) * w
filled n w low v u e = omega (
  arith,
  e,
  ap (λ (t : ℕ). 256 ^ n * t) (value-replicate_scaled (2 * n - n) w),
  ap (λ (t : ℕ). t * w) (pow-add 256 n (2 * n - n)),
  ap (λ (t : ℕ). 256 ^ t * w) half,
)
  where
    half : n + (2 * n - n) ≡ 2 * n
    half = omega arith

Bytes-wrapped :
    (v w : ℕ) {n borrow t : ℕ} {out : List ℕ}
    → Bytes n t out
    → t + w ≡ v + 256 ^ n * borrow
    → borrow ≤ 1
    → Bytes n ((v + 256 ^ n - w) % 256 ^ n) out
Bytes-wrapped v w {n} {borrow} {t} {out} made e small = record {
  long = made.long;
  bytes = made.bytes;
  valued = made.valued ∙ sym (wrapped v w (256 ^ n) borrow t small e fits);
}
  where
    fits : t < 256 ^ n
    fits = rw made.valued at (rw made.long at (value-lt out made.bytes))

taken : (b : List ℕ) {n : ℕ} → n ≡ length b → value (take n b) ≡ value b
taken b e = ap value (take_all b _ (omega arith))

whole : (a : List ℕ) → value (take (length a) a) ≡ value a
whole a = taken a refl

module _ (fuel : ℕ) (a b : Immediate) (ha : All IsByte a) (hb : All IsByte b)
    (l : length a ≡ length b) (pos : 0 < length a) (small : length a < 128)
    (enough : 2 * length a < fuel) where
  same : (length a == length b) ≡ true
  same = ground arith

  low_take :
      (out : List ℕ)
      → Partial (zeros (2 * length a)) (length a) out
      → length (take (length a) out) ≡ length a
  low_take out p = rw (length-take, p.same_length, length-replicate) (omega arith)

  module _ (out : List ℕ) (p : Partial (zeros (2 * length a)) (length a) out) where
    long : length out ≡ 2 * length a
    long = p.same_length ∙ length-replicate (2 * length a) 0

    -- `+` behind its first loop.
    finish_add :
        (c : ℕ)
        → add_low fuel 0 0 (zeros (2 * length a)) a b ≡ ok (length a, c, out)
        → c ≤ 1
        → value (take (length a) out) + 256 ^ length a * c ≡ value a + value b
        → Returns (add_with fuel a b) (Bytes (2 * length a) (value a + value b))
    unfolding add_with
    finish_add c ran c_small e =
        let inside : length a < length out = omega (arith, long) in
        let next : (length a + 1) % 2 ^ 8 ≡ suc (length a) = omega arith in
        let carry : c % 2 ^ 8 ≡ c = omega arith in
        let tail = zeros (2 * length a - suc (length a)) in
        let none_above : value tail ≡ 0 = value-replicate_zero (2 * length a - suc (length a)) in
        let total : value (take (length a) out) + 256 ^ length a * value (c ∷ tail)
            ≡ value a + value b =
          rw none_above (omega (arith, e)) in
        (
          take (length a) out ++ c ∷ tail,
          rw
              (
                same,
                start_zeros a (omega arith),
                ran,
                lt→ltb (length a) (length out) inside,
                next,
                carry,
                fill_lem fuel (suc (length a)) 0 (set out (length a) c)
                    (rw (length-set, long) (omega arith)) (rw length-set inside)
                    (rw (length-set, long) (omega arith)),
                take-suc-set out (length a) c inside,
                length-set,
                long,
                append_assoc,
              )
              refl,
          rw total at (
              Bytes-append (length a) (2 * length a) (take (length a) out) (c ∷ tail)
                (low_take out p) (rw length-replicate (omega arith)) (omega arith)
                (All-take IsByte (length a) out p.bytes)
                (
                  omega arith,
                  All-replicate IsByte (2 * length a - suc (length a)) 0 (omega arith),
                )),
        )

    -- `-` behind its first loop.
    finish_sub :
        (w t : ℕ)
        → sub_low fuel 0 0 (zeros (2 * length a)) a b ≡ ok (length a, t, out)
        → w ≤ 1
        → t ≡ 0xffff * w
        → value (take (length a) out) + value b ≡ value a + 256 ^ length a * w
        → Returns (sub_with fuel a b) (
            Bytes
              (2 * length a)
              ((value a + 256 ^ (2 * length a) - value b) % 256 ^ (2 * length a)))
    unfolding sub_with
    finish_sub w t ran w_small pattern e =
        let byte : t % 2 ^ 8 ≡ 255 * w = omega arith in
        let tail = replicate (2 * length a - length a) (255 * w) in
        let built =
          Bytes-append (length a) (2 * length a) (take (length a) out) tail (low_take out p)
            (rw length-replicate refl) (omega arith) (All-take IsByte (length a) out p.bytes)
            (All-replicate IsByte (2 * length a - length a) (255 * w) (omega arith)) in
        (
          take (length a) out ++ tail,
          rw
              (
                same,
                start_zeros a (omega arith),
                ran,
                byte,
                fill_lem fuel (length a) (255 * w) out (rw long (omega arith))
                    (rw long (omega arith)) (rw long (omega arith)),
                long,
              )
              refl,
          Bytes-wrapped (value a) (value b) built
              (filled (length a) w (value (take (length a) out)) (value a) (value b) e) w_small,
        )

  -- Below 128 bytes, `+` ends, without a fault, in the whole sum, in twice the size.
  pub add_with-value : Returns (add_with fuel a b) (Bytes (2 * length a) (value a + value b))
  add_with-value =
      let (c, out, ran, (c_small, p, e)) =
        add_low-Sum a b (zeros (2 * length a)) ha hb (omega arith)
          (rw length-replicate (omega arith)) fuel 0 0 (zeros (2 * length a)) (omega arith)
          (omega arith) (omega arith, Partial-zeros (2 * length a), omega arith) in
      finish_add out p c ran c_small (e ∙ ap₂ ◌+◌ (whole a) (taken b l))

  -- Below 128 bytes, `-` ends, without a fault, in the difference modulo twice the size.
  pub sub_with-value :
      Returns
        (sub_with fuel a b)
        (Bytes (2 * length a) ((value a + 256 ^ (2 * length a) - value b) % 256 ^ (2 * length a)))
  sub_with-value =
      let (w, t, out, ran, (w_small, pattern, p, e)) =
        sub_low-Difference a b (zeros (2 * length a)) ha hb (omega arith)
          (rw length-replicate (omega arith)) fuel 0 0 0 (zeros (2 * length a)) (omega arith)
          (omega arith) (omega arith, omega arith, Partial-zeros (2 * length a), omega arith) in
      finish_sub out p w t ran w_small pattern (rw (whole a, taken b l) at e)

-- For immediates of one size, from 1 to 127 bytes, `+` ends without a fault in an immediate of
-- twice the size whose value is the whole sum.
pub add-value :
    (a b : Immediate)
    → All IsByte a
    → All IsByte b
    → length a ≡ length b
    → 0 < length a
    → length a < 128
    → Returns (add a b) (Bytes (2 * length a) (value a + value b))
unfolding add
add-value a b ha hb l pos small = add_with-value loop_fuel a b ha hb l pos small (omega arith)

-- For immediates of one size, from 1 to 127 bytes, `-` ends without a fault in an immediate of
-- twice the size whose value is the difference modulo 2 to the power of that size.
pub sub-value :
    (a b : Immediate)
    → All IsByte a
    → All IsByte b
    → length a ≡ length b
    → 0 < length a
    → length a < 128
    → Returns
        (sub a b)
        (Bytes (2 * length a) ((value a + 256 ^ (2 * length a) - value b) % 256 ^ (2 * length a)))
unfolding sub
sub-value a b ha hb l pos small = sub_with-value loop_fuel a b ha hb l pos small (omega arith)
