-- ===== src/Immediate/Arith/Add/Endless.antt =====
-- `+` and `-` on operands of 128 bytes or more: the result has 256 bytes or more, and the last
-- loop's `uint8_t` counter never reaches its end.
use reil.Base.{
  ℕ, zero, suc, ◌+◌, ◌-◌, ◌*◌, ◌^◌, ◌≤◌, ◌<◌, ◌≡◌, ◌⊎◌, refl, true, ltb, ◌==◌, inl, inr, Bool-cases,
  lt→ltb, u8, u16, length, set, Run, ok, fault, out_of_fuel, arith, length-set, length-replicate,
  get_or,
}
use reil.Immediate.{Immediate, zeros}
use reil.Immediate.Arith.Add.{add_low, sub_low, fill, add_with, sub_with}
use reil.Immediate.Arith.Add.Sums.{start_zeros}

fill_endless :
    (fuel i v : ℕ) (a : Immediate) → 256 ≤ length a → i < 256 → fill fuel i v a ≡ fault out_of_fuel
unfolding fill
fill_endless zero i v a long small = refl
fill_endless (suc fuel) i v a long small =
    rw
      (
        lt→ltb i (length a) (omega arith),
        fill_endless fuel (u8 (i + 1)) v (set a i v) (rw length-set long) (omega arith),
      )
      refl

-- A first loop runs out of fuel, or ends at an index that is a byte and with a result as long as
-- it was.
abbrev Ends : ℕ → Run (ℕ × ℕ × Immediate) → Type 0
Ends n r =
    (r ≡ fault out_of_fuel)
    ⊎ ((i : ℕ) × (t : ℕ) × (out : Immediate) × (r ≡ ok (i, t, out)) × (length out ≡ n) × (i < 256))

add_low-Ends :
    (fuel i t : ℕ) (out a b : Immediate) → i < 256 → Ends (length out) (add_low fuel i t out a b)
unfolding add_low
add_low-Ends zero i t out a b h = inl refl
add_low-Ends (suc fuel) i t out a b h = elim (Bool-cases (ltb i (length a))) [
  | inl more ↦
      rw (more, ← length-set out i (u8 (u16 (t + get_or a i 0 + get_or b i 0))))
        (add_low-Ends fuel (u8 (i + 1)) _ (set out i _) a b (omega arith))
  | inr done ↦ rw done (inr (i, t, out, refl, refl, h))
]

sub_low-Ends :
    (fuel i t : ℕ) (out a b : Immediate) → i < 256 → Ends (length out) (sub_low fuel i t out a b)
unfolding sub_low
sub_low-Ends zero i t out a b h = inl refl
sub_low-Ends (suc fuel) i t out a b h = elim (Bool-cases (ltb i (length a))) [
  | inl more ↦
      rw (more, ← length-set out i (u8 (u16 (t + get_or a i 0 + 2 ^ 16 - get_or b i 0))))
        (sub_low-Ends fuel (u8 (i + 1)) _ (set out i _) a b (omega arith))
  | inr done ↦ rw done (inr (i, t, out, refl, refl, h))
]

module _ (fuel : ℕ) (a b : Immediate) (l : length a ≡ length b) (large : 128 ≤ length a)
    (sized : length a < 4096) where
  same : (length a == length b) ≡ true
  same = ground arith

  long : length (zeros (2 * length a)) ≡ 2 * length a
  long = length-replicate (2 * length a) 0

  -- On operands of one size, from 128 to 4095 bytes, `+` never ends, whatever the fuel.
  pub add_with-endless : add_with fuel a b ≡ fault out_of_fuel
  unfolding add_with
  add_with-endless = elim (add_low-Ends fuel 0 0 (zeros (2 * length a)) a b (omega arith)) [
    | inl out_of ↦ rw (same, start_zeros a sized, out_of) refl
    | inr (i, t, out, ran, kept, small) ↦
        rw
          (
            same,
            start_zeros a sized,
            ran,
            lt→ltb i (length out) (omega (arith, long)),
            fill_endless fuel (u8 (i + 1)) 0 (set out i (u8 t))
                (rw length-set (omega (arith, long))) (omega arith),
          )
          refl
  ]

  -- On operands of one size, from 128 to 4095 bytes, `-` never ends, whatever the fuel.
  pub sub_with-endless : sub_with fuel a b ≡ fault out_of_fuel
  unfolding sub_with
  sub_with-endless = elim (sub_low-Ends fuel 0 0 (zeros (2 * length a)) a b (omega arith)) [
    | inl out_of ↦ rw (same, start_zeros a sized, out_of) refl
    | inr (i, t, out, ran, kept, small) ↦
        rw
          (
            same,
            start_zeros a sized,
            ran,
            fill_endless fuel i (u8 t) out (omega (arith, long)) small,
          )
          refl
  ]
