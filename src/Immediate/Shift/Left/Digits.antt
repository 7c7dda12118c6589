-- ===== src/Immediate/Shift/Left/Digits.antt =====
-- The digits of a number that is shifted up, byte by byte.
use native.Mathlib.Nat.{pow-suc, mul-le-mul_left}
use reil.Base.{
  ℕ, zero, suc, ◌+◌, ◌-◌, ◌*◌, ◌/◌, ◌%◌, ◌^◌, ◌≤◌, ◌<◌, ◌≡◌, ap, ◌∙◌, List, u8, length, drop,
  replicate, memset, All, arith, bit_or, length-append, length-drop, length-replicate, All-append,
  All-drop, All-replicate,
}
use reil.Base.Bits.{bit_or_disjoint}
use reil.Immediate.{IsByte, value}
use reil.Immediate.Value.{value-append, value-replicate_zero, mod_unique}
use reil.Immediate.Convert.{Bytes}

-- One byte of the result, from a byte and the byte below it.
pub shift_byte :
    (b x y : ℕ)
    → 0 < b
    → b < 8
    → IsByte x
    → IsByte y
    → u8 (bit_or (x * 2 ^ b) (y / 2 ^ (8 - b))) ≡ (x * 2 ^ b + y / 2 ^ (8 - b)) % 256
shift_byte zero x y pos small hx hy = absurd (omega arith)
shift_byte (suc zero) x y pos small hx hy =
    omega (arith, bit_or_disjoint 1 x (y / 128) (omega arith))
shift_byte (suc (suc zero)) x y pos small hx hy =
    omega (arith, bit_or_disjoint 2 x (y / 64) (omega arith))
shift_byte (suc (suc (suc zero))) x y pos small hx hy =
    omega (arith, bit_or_disjoint 3 x (y / 32) (omega arith))
shift_byte (suc (suc (suc (suc zero)))) x y pos small hx hy =
    omega (arith, bit_or_disjoint 4 x (y / 16) (omega arith))
shift_byte (suc (suc (suc (suc (suc zero))))) x y pos small hx hy =
    omega (arith, bit_or_disjoint 5 x (y / 8) (omega arith))
shift_byte (suc (suc (suc (suc (suc (suc zero)))))) x y pos small hx hy =
    omega (arith, bit_or_disjoint 6 x (y / 4) (omega arith))
shift_byte (suc (suc (suc (suc (suc (suc (suc zero))))))) x y pos small hx hy =
    omega (arith, bit_or_disjoint 7 x (y / 2) (omega arith))
shift_byte (suc (suc (suc (suc (suc (suc (suc (suc b)))))))) x y pos small hx hy =
    absurd (omega arith)

-- The bits that a byte passes on to the byte above it.
unfoldable pub carry : ℕ → ℕ → ℕ
carry b y = y / 2 ^ (8 - b)

pub carry_step :
    (b y c : ℕ) → 0 < b → b < 8 → IsByte y → c < 2 ^ b → (y * 2 ^ b + c) / 256 ≡ carry b y
unfolding carry
carry_step zero y c pos small hy hc = absurd (omega arith)
carry_step (suc zero) y c pos small hy hc = omega arith
carry_step (suc (suc zero)) y c pos small hy hc = omega arith
carry_step (suc (suc (suc zero))) y c pos small hy hc = omega arith
carry_step (suc (suc (suc (suc zero)))) y c pos small hy hc = omega arith
carry_step (suc (suc (suc (suc (suc zero))))) y c pos small hy hc = omega arith
carry_step (suc (suc (suc (suc (suc (suc zero)))))) y c pos small hy hc = omega arith
carry_step (suc (suc (suc (suc (suc (suc (suc zero))))))) y c pos small hy hc = omega arith
carry_step (suc (suc (suc (suc (suc (suc (suc (suc b)))))))) y c pos small hy hc =
    absurd (omega arith)

pub carry-lt : (b y : ℕ) → b < 8 → IsByte y → carry b y < 2 ^ b
unfolding carry
carry-lt zero y small hy = omega arith
carry-lt (suc zero) y small hy = omega arith
carry-lt (suc (suc zero)) y small hy = omega arith
carry-lt (suc (suc (suc zero))) y small hy = omega arith
carry-lt (suc (suc (suc (suc zero)))) y small hy = omega arith
carry-lt (suc (suc (suc (suc (suc zero))))) y small hy = omega arith
carry-lt (suc (suc (suc (suc (suc (suc zero)))))) y small hy = omega arith
carry-lt (suc (suc (suc (suc (suc (suc (suc zero))))))) y small hy = omega arith
carry-lt (suc (suc (suc (suc (suc (suc (suc (suc b)))))))) y small hy = absurd (omega arith)

pub digit_read :
    (k lo v digit above total : ℕ)
    → lo + 256 ^ k * digit + 256 ^ suc k * above ≡ total
    → v ≡ digit
    → lo + 256 ^ k * (v + 256 * above) ≡ total
digit_read k lo v digit above total e d =
    omega (arith, e, ap (λ (t : ℕ). 256 ^ k * t) d, ap (λ (t : ℕ). t * above) (pow-suc 256 k))

-- A digit `d` of a number scaled by `p`, with a carry `c` from below and a carry `e` to above.
pub next_digit :
    (m v d p low c e : ℕ)
    → v * p ≡ low + m * c
    → (d * p + c) / 256 ≡ e
    → (v + m * d) * p ≡ low + m * ((d * p + c) % 256) + m * 256 * e
next_digit m v d p low c e x y =
    let split : d * p + c ≡ (d * p + c) % 256 + 256 * e = omega (arith, y) in
    omega (arith, x, ap (λ (t : ℕ). m * t) split)

-- Zeros over the bytes below those that hold the value.
pub low_cleared :
    (w : List ℕ) (n whole v : ℕ)
    → length w ≡ n
    → All IsByte w
    → whole ≤ n
    → value (drop whole w) ≡ v
    → Bytes n (256 ^ whole * v) (memset w 0 0 whole)
low_cleared w n whole v l h low e =
    let z : 0 + whole ≡ whole = omega arith in
    rw z record {
      long = rw (length-append, length-drop, length-replicate) (omega (arith, l));
      bytes =
          All-append IsByte (replicate whole 0) (drop whole w)
            (All-replicate IsByte whole 0 (omega arith)) (All-drop IsByte whole w h);
      valued = rw (value-append, value-replicate_zero, length-replicate, e) (omega arith);
    }

-- A product cut to the size: `w` and `m` are the powers for the bytes below and above.
pub scaled :
    (v low_part m high w p lo c : ℕ)
    → v ≡ low_part + m * high
    → low_part * p ≡ lo + m * c
    → lo < m
    → 0 < w
    → v * (w * p) % (w * m) ≡ w * lo
scaled v low_part m high w p lo c e f lt pos =
    let whole : v * (w * p) ≡ w * lo + w * m * (c + high * p) =
      omega (arith, ap (λ (t : ℕ). t * (w * p)) e, ap (λ (t : ℕ). w * t) f) in
    ap (λ (t : ℕ). t % (w * m)) whole
    ∙ mod_unique (w * m) (c + high * p) (w * lo) (omega (arith, mul-le-mul_left w lt))
