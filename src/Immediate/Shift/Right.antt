-- ===== src/Immediate/Shift/Right.antt =====
-- `>>=` divides by a power of two.
mod Digits
use native.Mathlib.Nat.{
  pow-suc, div-le_self, pow-le-pow_right, one-le-pow, mul-le-mul_left, div-eq_of_lt,
  div-div-eq-div-mul,
}
use mathlib.Core.List.{append-nil}
use mathlib.Core.Path.{subst}
use reil.Base.{
  ℕ, zero, suc, ◌+◌, ◌-◌, ◌*◌, ◌/◌, ◌%◌, ◌^◌, ◌≤◌, ◌<◌, ◌≡◌, refl, ap, sym, ◌∙◌, List, ◌++◌, leb,
  ◌==◌, inl, inr, Bool-cases, u8, u16, length, get_or, set, take, drop, replicate, memset, All,
  arith, length-set, bit_or, length-append, length-take, length-drop, length-replicate, All-append,
  All-take, All-replicate, drop_all, take_all, take-append_self, All-drop,
}
use reil.Base.Bits.{bit_or_low}
use reil.Base.Powers.{pow-bytes}
use reil.Immediate.{Immediate, IsByte, value}
use reil.Immediate.Value.{All-get_or, value-drop, value-lt, value-append_zeros}
use reil.Immediate.Write.{
  read_rest, value-take-set, All-set, drop-set, drop-suc, get_or-drop, value-drop-suc,
}
use reil.Immediate.Convert.{Bytes}
use reil.Immediate.Shift.{memmove, shr, shr_bytes, shr_loop}
use reil.Immediate.Shift.Right.Digits.{shift_byte, top_cleared, digit_written}

module _ (a : Immediate) (h : All IsByte a) (whole part : ℕ) (pos : 0 < part)
    (small : part < 8) where
  -- The loop's state at index `i`: the bytes below the index, moved down, are written, and those
  -- from the index on are as they were.
  record Moved (i : ℕ) (out : List ℕ) : Type 0 where
    same_length : length out ≡ length a
    bytes : All IsByte out
    rest : drop i out ≡ drop i a
    sum :
        value (take (i - whole) out) + 256 ^ (i - whole) * (value (drop i a) / 2 ^ part)
        ≡ value (drop whole a) / 2 ^ part

  Moved-step :
      (i : ℕ) (out : List ℕ)
      → whole ≤ i
      → suc i < length a
      → Moved i out
      → Moved (suc i) (
          set out
            (i - whole)
            (u8 (bit_or (get_or out i 0 / 2 ^ part) (get_or out (i + 1) 0 * 2 ^ (8 - part)))))
  Moved-step i out low inside m = record {
    same_length = length-set out _ _ ∙ m.same_length;
    bytes = All-set out (i - whole) _ m.bytes (omega arith);
    rest = drop-set out (suc i) (i - whole) _ (omega arith) ∙ rest_suc;
    sum =
        rw
          (
            index,
            value-take-set out (i - whole) _ (omega (arith, m.same_length)),
            read_rest i out a m.rest,
            read_rest (i + 1) out a rest_next,
          )
          (digit_written (i - whole) (value (take (i - whole) out)) (value (drop i a) / 2 ^ part) _
            (value (drop (suc i) a) / 2 ^ part) _ m.sum top);
  }
    where
      index : suc i - whole ≡ suc (i - whole)
      index = omega arith

      next : i + 1 ≡ suc i
      next = omega arith

      rest_suc : drop (suc i) out ≡ drop (suc i) a
      rest_suc = drop-suc i out ∙ ap (drop 1) m.rest ∙ sym (drop-suc i a)

      rest_next : drop (i + 1) out ≡ drop (i + 1) a
      rest_next = rw next rest_suc

      top :
          value (drop i a) / 2 ^ part
          ≡ u8 (bit_or (get_or a i 0 / 2 ^ part) (get_or a (i + 1) 0 * 2 ^ (8 - part)))
            + 256 * (value (drop (suc i) a) / 2 ^ part)
      top =
          rw (next, value-drop-suc i a, value-drop-suc (suc i) a)
            (shift_byte part (get_or a i 0) (get_or a (suc i) 0) (value (drop (suc (suc i)) a)) pos
              small (All-get_or a i h) (All-get_or a (suc i) h))

  shr_loop-Moved :
      (rounds i : ℕ) (out : List ℕ)
      → whole ≤ i
      → suc (i + rounds) ≡ length a
      → Moved i out
      → Moved (i + rounds) (shr_loop whole part rounds i out)
  unfolding shr_loop
  shr_loop-Moved zero i out low end m = let e : i + zero ≡ i = omega arith in rw e m
  shr_loop-Moved (suc rounds) i out low end m =
      let e : i + suc rounds ≡ suc i + rounds = omega arith in
      let f : i + 1 ≡ suc i = omega arith in
      rw (e, f)
        (shr_loop-Moved rounds (suc i) _ (omega arith) (omega (arith, end))
          (rw f at (Moved-step i out low (omega (arith, end)) m)))

  start : Moved whole a
  start = record {
    same_length = refl;
    bytes = h;
    rest = refl;
    sum = let e : whole - whole ≡ 0 = omega arith in rw e (omega arith);
  }

  -- The last byte, and the zeros above.
  finish :
      (out : List ℕ)
      → whole < length a
      → Moved (length a - 1) out
      → Bytes (length a) (value (drop whole a) / 2 ^ part) (
          memset
            (set out (length a - 1 - whole) (get_or out (length a - 1) 0 / 2 ^ part))
            (length a - whole)
            0
            whole)
  finish out inside m =
      top_cleared (set out (length a - 1 - whole) (get_or out (length a - 1) 0 / 2 ^ part))
        (length a) whole _ (length-set out _ _ ∙ m.same_length)
        (All-set out (length a - 1 - whole) _ m.bytes (
          omega (
            arith,
            div-le_self (get_or out (length a - 1) 0) (2 ^ part),
            All-get_or out (length a - 1) m.bytes,
          )))
        (omega arith)
        (rw (index, value-take-set out (length a - 1 - whole) _ (omega (arith, m.same_length)))
          (ap (λ t. value (take (length a - 1 - whole) out) + 256 ^ (length a - 1 - whole) * t)
              highest
            ∙ m.sum))
    where
      index : length a - whole ≡ suc (length a - 1 - whole)
      index = omega arith

      last_byte : value (drop (length a - 1) a) ≡ get_or a (length a - 1) 0
      last_byte =
          value-drop-suc (length a - 1) a
          ∙ rw (drop_all a (suc (length a - 1)) (omega arith)) (omega arith)

      highest : get_or out (length a - 1) 0 / 2 ^ part ≡ value (drop (length a - 1) a) / 2 ^ part
      highest = ap (λ (t : ℕ). t / 2 ^ part) (read_rest (length a - 1) out a m.rest ∙ sym last_byte)

  shr_bits :
      (out : List ℕ)
      → whole < length a
      → out ≡ shr_loop whole part (length a - 1 - whole) whole a
      → Bytes (length a) (value (drop whole a) / 2 ^ part) (
          memset
            (set out (length a - 1 - whole) (get_or out (length a - 1) 0 / 2 ^ part))
            (length a - whole)
            0
            whole)
  shr_bits out inside ran =
      let e : whole + (length a - 1 - whole) ≡ length a - 1 = omega arith in
      finish out inside (
        rw ran (
          rw e at
            (shr_loop-Moved (length a - 1 - whole) whole a (omega arith) (omega arith) start)))

-- Moving by whole bytes.
shr-Bytes :
    (a : Immediate) (whole : ℕ)
    → All IsByte a
    → whole ≤ length a
    → Bytes
        (length a)
        (value a / 256 ^ whole)
        (memset (memmove a 0 whole (length a - whole)) (length a - whole) 0 whole)
shr-Bytes a whole h low =
    top_cleared (take (length a - whole) (drop whole a) ++ drop (0 + (length a - whole)) a)
      (length a) whole (value a / 256 ^ whole)
      (rw (length-append, length-take, length-drop, length-drop) (omega arith))
      (All-append IsByte (take (length a - whole) (drop whole a)) (drop (0 + (length a - whole)) a)
        (All-take IsByte (length a - whole) (drop whole a) (All-drop IsByte whole a h))
        (All-drop IsByte (0 + (length a - whole)) a h))
      low
      (rw
        (
          kept,
          ap (λ t. take t (drop whole a ++ drop (0 + (length a - whole)) a)) (sym size_kept),
          take-append_self,
        )
        (value-drop whole a h))
  where
    size_kept : length (drop whole a) ≡ length a - whole
    size_kept = length-drop whole a

    kept : take (length a - whole) (drop whole a) ≡ drop whole a
    kept = take_all (drop whole a) (length a - whole) (omega (arith, size_kept))

-- The bytes that the width counts.
pub shr_bytes-value :
    (a : Immediate) (k : ℕ) → All IsByte a → Bytes (length a) (value a / 2 ^ k) (shr_bytes a k)
unfolding shr_bytes
shr_bytes-value a k h = elim (Bool-cases (leb (length a) (k / 8))) [
  | inl all ↦
      rw (all, gone (ground arith))
        (let none_stay : length a - length a ≡ 0 = omega arith in
          rw none_stay at
            (top_cleared a (length a) (length a) 0 refl h (omega arith) (rw none_stay refl)))
  | inr some_stay ↦ elim (Bool-cases (k % 8 == 0)) [
    | inl whole ↦
        rw (some_stay, whole, split, (let z : k % 8 ≡ 0 = ground arith in z), one)
          (shr-Bytes a (k / 8) h (ground arith))
    | inr part ↦
        let inside : k / 8 < length a = ground arith in
        rw (some_stay, part, split)
          (rw (value-drop (k / 8) a h, div-div-eq-div-mul) at
            (shr_bits a h (k / 8) (k % 8) (ground arith) (omega arith)
              (shr_loop (k / 8) (k % 8) (length a - 1 - k / 8) (k / 8) a) inside refl))
  ]
]
  where
    split : 2 ^ k ≡ 256 ^ (k / 8) * 2 ^ (k % 8)
    split =
        let e : k ≡ 8 * (k / 8) + k % 8 = omega arith in
        ap (λ (t : ℕ). 2 ^ t) e ∙ pow-bytes (k / 8) (k % 8)

    one : (x : ℕ) → x * 2 ^ 0 ≡ x
    one x = omega arith

    gone : length a ≤ k / 8 → value a / 2 ^ k ≡ 0
    gone l = div-eq_of_lt (
        omega (
          arith,
          value-lt a h,
          pow-le-pow_right {n = 256} (omega arith) l,
          split,
          mul-le-mul_left (256 ^ (k / 8)) (one-le-pow (k % 8) 2 (omega arith)),
        ))

-- In an immediate of fewer than 65536 bytes, `>>=` divides the value by the power of two of its count, rounding down,
-- for every count that fits `uint16_t`.
pub shr-value :
    (a : Immediate) (k : ℕ)
    → All IsByte a
    → length a < 2 ^ 16
    → k < 2 ^ 16
    → Bytes (length a) (value a / 2 ^ k) (shr a k)
unfolding shr
shr-value a k h small count =
    let width : u16 (length a) ≡ length a = omega arith in
    rw
      (
        width,
        take_all a (length a) (omega arith),
        drop_all a (length a) (omega arith),
        append-nil (shr_bytes a k),
      )
      (shr_bytes-value a k h)
