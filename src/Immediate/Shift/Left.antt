-- ===== src/Immediate/Shift/Left.antt =====
-- `<<=` multiplies by a power of two, modulo the size.
mod Digits
use native.Mathlib.Nat.{pow-suc, mul-le-mul_left, one-le-pow, mod-eq_of_lt}
use mathlib.Core.List.{append-nil}
use mathlib.Core.Path.{subst}
use reil.Base.{
  drop-append_self, ℕ, zero, suc, ◌+◌, ◌-◌, ◌*◌, ◌/◌, ◌%◌, ◌^◌, ◌≤◌, ◌<◌, ◌≡◌, refl, ap, ap₂, sym,
  ◌∙◌, List, [], ◌∷◌, ◌++◌, ltb, leb, not, ◌==◌, if◌then◌else◌, inl, inr, Bool-cases, u8, u16,
  length, get_or, set, take, drop, replicate, memset, All, arith, length-set, bit_or, length-append,
  length-take, length-drop, length-replicate, All-append, All-take, All-drop, All-replicate,
  drop_all, take_all,
}
use reil.Base.Bits.{bit_or_disjoint}
use reil.Base.Powers.{pow-add, pow-bytes}
use reil.Immediate.{Immediate, IsByte, value, zeros}
use reil.Immediate.Value.{
  value-take-lt, All-get_or, value-append, value-replicate_zero, value-take, value-take-suc,
  value-lt, mod_unique, value-take-drop,
}
use reil.Immediate.Write.{
  All-set, take-set, get_or-set, get_or-take, take-take, drop-suc-set, value-drop-suc,
}
use reil.Immediate.Convert.{Bytes}
use reil.Immediate.Shift.{memmove, shl, shl_bytes, shl_loop}
use reil.Immediate.Shift.Left.Digits.{
  shift_byte, carry, carry_step, carry-lt, digit_read, next_digit, low_cleared, scaled,
}

module _ (a : Immediate) (h : All IsByte a) (whole part : ℕ) (pos : 0 < part)
    (small : part < 8) where
  -- The value of the lowest bytes of the result, up to the one at `j`.
  low : ℕ → ℕ
  low zero = get_or a 0 0 * 2 ^ part % 256
  low (suc j) =
      low j + 256 ^ suc j * ((get_or a (suc j) 0 * 2 ^ part + carry part (get_or a j 0)) % 256)

  low-lt : (j : ℕ) → low j < 256 ^ suc j
  unfolding low
  low-lt zero = omega arith
  low-lt (suc j) =
      let d : (get_or a (suc j) 0 * 2 ^ part + carry part (get_or a j 0)) % 256 ≤ 255 =
        omega arith in
      omega (arith, low-lt j, pow-suc 256 (suc j), mul-le-mul_left (256 ^ suc j) d)

  low-carry :
      (j : ℕ) → value (take (suc j) a) * 2 ^ part ≡ low j + 256 ^ suc j * carry part (get_or a j 0)
  unfolding low
  low-carry zero =
      let x = get_or a 0 0 in
      rw (value-take-suc zero a) (
        omega (
          arith,
          carry_step part (get_or a 0 0) 0 pos small (All-get_or a 0 h)
              (one-le-pow part 2 (omega arith)),
        ))
  low-carry (suc j) =
      let x = get_or a (suc j) 0 in
      let below = carry part (get_or a j 0) in
      let above = carry part x in
      let c : (x * 2 ^ part + below) / 256 ≡ above =
        carry_step part x below pos small (All-get_or a (suc j) h)
          (carry-lt part (get_or a j 0) small (All-get_or a j h)) in
      rw (value-take-suc (suc j) a) (
        next_digit (256 ^ suc j) (value (take (suc j) a)) x (2 ^ part) (low j) below above
          (low-carry j) c
        ∙ ap (λ (t : ℕ). low (suc j) + t * above) (sym (pow-suc 256 (suc j))))

  -- The loop's state at byte `j` of the operand: the bytes above `whole + j` of the result are
  -- written, and those up to it are as they were.
  record Moved (j : ℕ) (out : List ℕ) : Type 0 where
    same_length : length out ≡ length a
    bytes : All IsByte out
    rest : take (suc (whole + j)) out ≡ take (suc (whole + j)) a
    sum : low j + 256 ^ suc j * value (drop (suc (whole + j)) out) ≡ low (length a - 1 - whole)

  read_rest :
      (n i : ℕ) (out : List ℕ) → i < n → take n out ≡ take n a → get_or out i 0 ≡ get_or a i 0
  read_rest n i out lt e =
      sym (get_or-take n i out lt) ∙ ap (λ t. get_or t i 0) e ∙ get_or-take n i a lt

  -- The byte at `whole + j` is written.
  Moved-step :
      (j : ℕ) (out : List ℕ) (v : ℕ)
      → whole + suc j < length a
      → Moved (suc j) out
      → v ≡ (get_or a (suc j) 0 * 2 ^ part + carry part (get_or a j 0)) % 256
      → Moved j (set out (whole + suc j) v)
  unfolding low
  Moved-step j out v inside m e = record {
    same_length = length-set out _ _ ∙ m.same_length;
    bytes = All-set out (whole + suc j) v m.bytes (omega (arith, e));
    rest =
        rw (index, take-set out (whole + suc j) v)
          (sym (take-take (whole + suc j) (suc (whole + suc j)) out (omega arith))
            ∙ ap (take (whole + suc j)) m.rest
            ∙ take-take (whole + suc j) (suc (whole + suc j)) a (omega arith));
    sum =
        rw
          (
            index,
            value-drop-suc (whole + suc j) (set out (whole + suc j) v),
            get_or-set out (whole + suc j) v (omega (arith, m.same_length)),
            drop-suc-set out (whole + suc j) v,
          )
          (digit_read (suc j) (low j) v _ (value (drop (suc (whole + suc j)) out)) _ m.sum e);
  }
    where
      index : suc (whole + j) ≡ whole + suc j
      index = omega arith

  written :
      (j : ℕ) (out : List ℕ)
      → Moved (suc j) out
      → u8 (bit_or (get_or out (suc j) 0 * 2 ^ part) (get_or out j 0 / 2 ^ (8 - part)))
        ≡ (get_or a (suc j) 0 * 2 ^ part + carry part (get_or a j 0)) % 256
  unfolding carry
  written j out m =
      rw
        (
          read_rest (suc (whole + suc j)) (suc j) out (omega arith) m.rest,
          read_rest (suc (whole + suc j)) j out (omega arith) m.rest,
        )
        (shift_byte part (get_or a (suc j) 0) (get_or a j 0) pos small (All-get_or a (suc j) h)
          (All-get_or a j h))

  shl_loop-Moved :
      (j : ℕ) (out : List ℕ)
      → whole + j < length a
      → Moved j out
      → Moved 0 (shl_loop whole part j (whole + j) out)
  unfolding shl_loop
  shl_loop-Moved zero out inside m = m
  shl_loop-Moved (suc j) out inside m =
      let e : whole + suc j - 1 ≡ whole + j = omega arith in
      let f : whole + suc j - whole ≡ suc j = omega arith in
      let g : suc j - 1 ≡ j = omega arith in
      rw (e, f, g)
        (shl_loop-Moved j _ (omega arith) (Moved-step j out _ inside m (written j out m)))

  start : whole < length a → Moved (length a - 1 - whole) a
  start inside = record {
    same_length = refl;
    bytes = h;
    rest = refl;
    sum = rw (drop_all a (suc (whole + (length a - 1 - whole))) (omega arith)) (omega arith);
  }

  shl_bits :
      (out : List ℕ)
      → whole < length a
      → out ≡ shl_loop whole part (length a - 1 - whole) (length a - 1) a
      → Bytes
          (length a)
          (256 ^ whole * low (length a - 1 - whole))
          (memset (set out whole (u8 (get_or out 0 0 * 2 ^ part))) 0 0 whole)
  unfolding low
  shl_bits out inside ran =
      low_cleared (set out whole _) (length a) whole _ (length-set out whole _ ∙ m.same_length)
        (All-set out whole _ m.bytes (omega arith)) (omega arith)
        (value-drop-suc whole (set out whole _)
          ∙ rw
              (
                get_or-set out whole (u8 (get_or out 0 0 * 2 ^ part))
                    (omega (arith, m.same_length)),
                drop-suc-set out whole (u8 (get_or out 0 0 * 2 ^ part)),
                read_rest (suc (whole + 0)) 0 out (omega arith) m.rest,
              )
              (let z : whole + 0 ≡ whole = omega arith in omega (arith, rw z at m.sum)))
    where
      m : Moved 0 out
      m =
          let e : whole + (length a - 1 - whole) ≡ length a - 1 = omega arith in
          rw ran (rw e at (shl_loop-Moved (length a - 1 - whole) a (omega arith) (start inside)))

  -- The value of the result.
  low-value :
      whole < length a
      → 256 ^ whole * low (length a - 1 - whole)
        ≡ value a * (256 ^ whole * 2 ^ part) % 256 ^ length a
  low-value inside =
      let e : suc (length a - 1 - whole) ≡ length a - whole = omega arith in
      let f : whole + suc (length a - 1 - whole) ≡ length a = omega arith in
      sym (
        ap (λ (t : ℕ). value a * (256 ^ whole * 2 ^ part) % t)
          (ap (λ (t : ℕ). 256 ^ t) (sym f) ∙ pow-add 256 whole (suc (length a - 1 - whole)))
        ∙ scaled (value a) (value (take (suc (length a - 1 - whole)) a))
            (256 ^ suc (length a - 1 - whole)) (value (drop (suc (length a - 1 - whole)) a))
            (256 ^ whole) (2 ^ part) (low (length a - 1 - whole)) _
            (value-take-drop (suc (length a - 1 - whole)) a) (low-carry (length a - 1 - whole))
            (low-lt (length a - 1 - whole)) (one-le-pow whole 256 (omega arith)))

-- Moving by whole bytes.
shl-Bytes :
    (a : Immediate) (whole : ℕ)
    → All IsByte a
    → whole ≤ length a
    → Bytes
        (length a)
        (value a * 256 ^ whole % 256 ^ length a)
        (memset (memmove a whole 0 (length a - whole)) 0 0 whole)
shl-Bytes a whole h low =
    rw (none_left, append-nil, product)
      (low_cleared (take whole a ++ take (length a - whole) a) (length a) whole
        (value (take (length a - whole) a))
        (rw (length-append, length-take, length-take) (omega (arith, low)))
        (All-append IsByte (take whole a) (take (length a - whole) a) (All-take IsByte whole a h)
          (All-take IsByte (length a - whole) a h))
        low
        (ap (λ (t : ℕ). value (drop t (take whole a ++ take (length a - whole) a))) (sym below)
          ∙ ap value (drop-append_self (take whole a) (take (length a - whole) a))))
  where
    below : length (take whole a) ≡ whole
    below = length-take whole a ∙ omega (arith, low)

    none_left : drop (whole + (length a - whole)) a ≡ []
    none_left = drop_all a (whole + (length a - whole)) (omega arith)

    product :
        value a * 256 ^ whole % 256 ^ length a ≡ 256 ^ whole * value (take (length a - whole) a)
    product =
        let e : length a ≡ whole + (length a - whole) = omega arith in
        let one : 256 ^ whole ≡ 256 ^ whole * 1 = omega arith in
        ap₂ (λ (s t : ℕ). value a * s % t) one
          (ap (λ (t : ℕ). 256 ^ t) e ∙ pow-add 256 whole (length a - whole))
        ∙ scaled (value a) (value (take (length a - whole) a)) (256 ^ (length a - whole))
            (value (drop (length a - whole) a)) (256 ^ whole) 1 (value (take (length a - whole) a))
            0 (value-take-drop (length a - whole) a) (omega arith)
            (value-take-lt (length a - whole) a h) (one-le-pow whole 256 (omega arith))

-- The bytes that the width counts.
shl_bytes-value :
    (a : Immediate) (k : ℕ)
    → All IsByte a
    → Bytes (length a) (value a * 2 ^ k % 256 ^ length a) (shl_bytes a k)
unfolding shl_bytes
shl_bytes-value a k h = elim (Bool-cases (leb (length a) (k / 8))) [
  | inl all ↦
      let zeros : 256 ^ length a * 0 ≡ 0 = omega arith in
      rw (all, gone (ground arith))
        (rw zeros at (
          low_cleared a (length a) (length a) 0 refl h (omega arith)
            (ap value (drop_all a (length a) (omega arith)))))
  | inr some_stay ↦ elim (Bool-cases (k % 8 == 0)) [
    | inl whole ↦
        rw (some_stay, whole, split, (let z : k % 8 ≡ 0 = ground arith in z), one)
          (shl-Bytes a (k / 8) h (ground arith))
    | inr part ↦
        let pos : 0 < k % 8 = ground arith in
        let small : k % 8 < 8 = omega arith in
        let inside : k / 8 < length a = ground arith in
        rw (some_stay, part, split, ← low-value a h (k / 8) (k % 8) pos small inside)
          (shl_bits a h (k / 8) (k % 8) pos small
            (shl_loop (k / 8) (k % 8) (length a - 1 - k / 8) (length a - 1) a) inside refl)
  ]
]
  where
    split : 2 ^ k ≡ 256 ^ (k / 8) * 2 ^ (k % 8)
    split =
        let e : k ≡ 8 * (k / 8) + k % 8 = omega arith in
        ap (λ (t : ℕ). 2 ^ t) e ∙ pow-bytes (k / 8) (k % 8)

    one : (x : ℕ) → x * 2 ^ 0 ≡ x
    one x = omega arith

    gone : length a ≤ k / 8 → value a * 2 ^ k % 256 ^ length a ≡ 0
    gone l =
        let e : k / 8 ≡ length a + (k / 8 - length a) = omega arith in
        let q = value a * (256 ^ (k / 8 - length a) * 2 ^ (k % 8)) in
        let f : 2 ^ k ≡ 256 ^ length a * 256 ^ (k / 8 - length a) * 2 ^ (k % 8) =
          split
          ∙ ap (λ (t : ℕ). t * 2 ^ (k % 8))
              (ap (λ (t : ℕ). 256 ^ t) e ∙ pow-add 256 (length a) (k / 8 - length a)) in
        let g : value a * 2 ^ k ≡ 0 + 256 ^ length a * q =
          omega (arith, ap (λ (t : ℕ). value a * t) f) in
        ap (λ (t : ℕ). t % 256 ^ length a) g
        ∙ mod_unique (256 ^ length a) q 0 (one-le-pow (length a) 256 (omega arith))

-- In an immediate of fewer than 65536 bytes, `<<=` multiplies the value by the power of two of its count, modulo the size,
-- for every count that fits `uint16_t`.
pub shl-value :
    (a : Immediate) (k : ℕ)
    → All IsByte a
    → length a < 2 ^ 16
    → k < 2 ^ 16
    → Bytes (length a) (value a * 2 ^ k % 256 ^ length a) (shl a k)
unfolding shl
shl-value a k h small count =
    let width : u16 (length a) ≡ length a = omega arith in
    rw
      (
        width,
        take_all a (length a) (omega arith),
        drop_all a (length a) (omega arith),
        append-nil (shl_bytes a k),
      )
      (shl_bytes-value a k h)
