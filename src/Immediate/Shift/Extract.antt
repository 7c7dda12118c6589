-- ===== src/Immediate/Shift/Extract.antt =====
-- `Extract` takes bits out of the middle of an immediate.
use native.Mathlib.Nat.{pow-zero, add-mul-mod_self_left, add-mul-div_left, one-le-pow}
use mathlib.Core.Path.{subst}
use reil.Base.Powers.{pow-add, pow-bytes}
use reil.Immediate.Value.{value-append, value-take-drop}
use reil.Base.{
  ℕ, ◌*◌, sym, ap, ap₂, ◌∙◌, ◌++◌, take, drop, u16, length, All-append, All-take, All-drop,
  length-take, ◌+◌, ◌-◌, ◌/◌, ◌%◌, ◌^◌, ◌≤◌, ◌<◌, ◌≡◌, refl, true, ◌&&◌, ltb, leb, ◌==◌, inl, inr,
  Bool-cases, All, Returns, arith,
}
use reil.Immediate.{Immediate, IsByte, value, size, resize}
use reil.Immediate.Convert.{Bytes, resize_lem}
use reil.Immediate.Shift.{shr, shr_bytes, extract}
use reil.Immediate.Shift.Right.{shr_bytes-value}

pow-byte : (n : ℕ) → 2 ^ (8 * n) ≡ 256 ^ n
pow-byte n =
    let e : 8 * n ≡ 8 * n + 0 = omega arith in ap (λ (t : ℕ). 2 ^ t) e ∙ pow-bytes n 0 ∙ omega arith

-- Bits from a multiple of the width on do not matter below the bits that the shift leaves.
shifted_low :
    (v q w k n : ℕ)
    → k + 8 * n ≤ 8 * w
    → (v / 2 ^ k + 256 ^ w * q) % 256 ^ n ≡ (v + 256 ^ w * q) / 2 ^ k % 256 ^ n
shifted_low v q w k n le =
    let r = 2 ^ (8 * w - k - 8 * n) in
    let one_n : 2 ^ (8 * n) ≡ 256 ^ n = pow-byte n in
    let e : k + (8 * n + (8 * w - k - 8 * n)) ≡ 8 * w = omega arith in
    let split : 256 ^ w ≡ 2 ^ k * (256 ^ n * r) =
      sym (pow-byte w)
      ∙ ap (λ (t : ℕ). 2 ^ t) (sym e)
      ∙ pow-add 2 k (8 * n + (8 * w - k - 8 * n))
      ∙ ap (λ (t : ℕ). 2 ^ k * t)
          (pow-add 2 (8 * n) (8 * w - k - 8 * n) ∙ ap (λ (t : ℕ). t * r) one_n) in
    let up : v / 2 ^ k + 256 ^ w * q ≡ v / 2 ^ k + 256 ^ n * (2 ^ k * r * q) =
      rw split (grind arith) in
    let across : (v + 256 ^ w * q) / 2 ^ k ≡ v / 2 ^ k + 256 ^ n * (r * q) =
      ap (λ (t : ℕ). (v + t) / 2 ^ k)
        (let m : 256 ^ w * q ≡ 2 ^ k * (256 ^ n * (r * q)) = rw split (grind arith) in m)
      ∙ add-mul-div_left v (256 ^ n * (r * q)) (one-le-pow k 2 (omega arith)) in
    ap (λ (t : ℕ). t % 256 ^ n) up
    ∙ add-mul-mod_self_left (v / 2 ^ k) (256 ^ n) (2 ^ k * r * q)
    ∙ sym (add-mul-mod_self_left (v / 2 ^ k) (256 ^ n) (r * q))
    ∙ sym (ap (λ (t : ℕ). t % 256 ^ n) across)

-- The low bytes of a shift to the right, which has no bytes from above the width in them.
shr-low :
    (a : Immediate) (s k : ℕ)
    → All IsByte a
    → k + 8 * (s / 8) ≤ 8 * u16 (length a)
    → Bytes (s / 8) (value a / 2 ^ k % 256 ^ (s / 8)) (resize s (shr a k))
unfolding shr
shr-low a s k h le =
    let w = u16 (length a) in
    let low = take w a in
    let b = shr_bytes-value low k (All-take IsByte w a h) in
    let long : length (shr_bytes low k) ≡ w = b.long ∙ length-take w a ∙ omega arith in
    let all = All-append IsByte (shr_bytes low k) (drop w a) b.bytes (All-drop IsByte w a h) in
    let whole : value (shr_bytes low k ++ drop w a)
        ≡ value low / 2 ^ k + 256 ^ w * value (drop w a) =
      value-append (shr_bytes low k) (drop w a)
      ∙ ap₂ (λ (t n : ℕ). t + 256 ^ n * value (drop w a)) b.valued long in
    subst (λ (t : ℕ). Bytes (s / 8) t (resize s (shr_bytes low k ++ drop w a)))
      (ap (λ (t : ℕ). t % 256 ^ (s / 8)) whole
        ∙ shifted_low (value low) (value (drop w a)) w k (s / 8) le
        ∙ ap (λ (t : ℕ). t / 2 ^ k % 256 ^ (s / 8)) (sym (value-take-drop w a)))
      (resize_lem s (shr_bytes low k ++ drop w a) all)

size-width : (a : Immediate) → size a ≤ 8 * u16 (length a)
unfolding size
size-width a = omega arith

-- For bits that lie inside the immediate, `Extract` ends without a fault in the value divided by
-- the power of two of the offset, cut to the whole bytes of the new size.
pub extract-value :
    (a : Immediate) (new_size offset : ℕ)
    → All IsByte a
    → offset < size a
    → new_size + offset ≤ size a
    → Returns
        (extract a new_size offset)
        (Bytes (new_size / 8) (value a / 2 ^ offset % 256 ^ (new_size / 8)))
unfolding extract
extract-value a new_size offset h inside fits = elim (Bool-cases (offset == 0)) [
  | inl bottom ↦
      let z : offset ≡ 0 = ground arith in
      let e : value a / 2 ^ offset ≡ value a = rw (z, pow-zero) (omega arith) in
      (resize new_size a, rw (allowed, bottom) refl, rw e (resize_lem new_size a h))
  | inr above ↦ (
    resize new_size (shr a offset),
    rw (allowed, above) refl,
    shr-low a new_size offset h (omega (arith, size-width a)),
  )
]
  where
    allowed : ltb offset (size a) && leb new_size (size a - offset) ≡ true
    allowed = ground arith
