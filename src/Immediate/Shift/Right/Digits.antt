-- ===== src/Immediate/Shift/Right/Digits.antt =====
-- The digits of a number that is shifted down, byte by byte.
use native.Mathlib.Nat.{pow-suc}
use mathlib.Core.List.{append-nil}
use mathlib.Core.Path.{subst}
use reil.Base.{
  ℕ, zero, suc, ◌+◌, ◌-◌, ◌*◌, ◌/◌, ◌^◌, ◌≤◌, ◌<◌, ◌≡◌, ap, sym, ◌∙◌, List, ◌++◌, u8, length, take,
  replicate, memset, All, arith, bit_or, length-append, length-take, length-replicate, All-append,
  All-take, All-replicate, drop_all,
}
use reil.Base.Bits.{bit_or_low}
use reil.Immediate.{IsByte, value}
use reil.Immediate.Value.{value-append_zeros}
use reil.Immediate.Convert.{Bytes}

-- One byte of the result, and the bytes above it.
pub shift_byte :
    (b x y v : ℕ)
    → 0 < b
    → b < 8
    → IsByte x
    → IsByte y
    → (x + 256 * (y + 256 * v)) / 2 ^ b
      ≡ u8 (bit_or (x / 2 ^ b) (y * 2 ^ (8 - b))) + 256 * ((y + 256 * v) / 2 ^ b)
shift_byte zero x y v pos small hx hy = absurd (omega arith)
shift_byte (suc zero) x y v pos small hx hy = omega (arith, bit_or_low 7 y (x / 2) (omega arith))
shift_byte (suc (suc zero)) x y v pos small hx hy =
    omega (arith, bit_or_low 6 y (x / 4) (omega arith))
shift_byte (suc (suc (suc zero))) x y v pos small hx hy =
    omega (arith, bit_or_low 5 y (x / 8) (omega arith))
shift_byte (suc (suc (suc (suc zero)))) x y v pos small hx hy =
    omega (arith, bit_or_low 4 y (x / 16) (omega arith))
shift_byte (suc (suc (suc (suc (suc zero))))) x y v pos small hx hy =
    omega (arith, bit_or_low 3 y (x / 32) (omega arith))
shift_byte (suc (suc (suc (suc (suc (suc zero)))))) x y v pos small hx hy =
    omega (arith, bit_or_low 2 y (x / 64) (omega arith))
shift_byte (suc (suc (suc (suc (suc (suc (suc zero))))))) x y v pos small hx hy =
    omega (arith, bit_or_low 1 y (x / 128) (omega arith))
shift_byte (suc (suc (suc (suc (suc (suc (suc (suc b)))))))) x y v pos small hx hy =
    absurd (omega arith)

-- Zeros over the bytes above those that hold the value.
pub top_cleared :
    (w : List ℕ) (n whole v : ℕ)
    → length w ≡ n
    → All IsByte w
    → whole ≤ n
    → value (take (n - whole) w) ≡ v
    → Bytes n v (memset w (n - whole) 0 whole)
top_cleared w n whole v l h low e =
    subst (Bytes n v)
      (sym (
        ap (λ t. take (n - whole) w ++ replicate whole 0 ++ t)
          (drop_all w (n - whole + whole) (omega (arith, l)))
        ∙ append-nil (take (n - whole) w ++ replicate whole 0)))
      (record {
        long = rw (length-append, length-take, length-replicate) (omega (arith, l));
        bytes =
            All-append IsByte (take (n - whole) w) (replicate whole 0)
              (All-take IsByte (n - whole) w h) (All-replicate IsByte whole 0 (omega arith));
        valued = value-append_zeros (take (n - whole) w) whole ∙ e;
      })

-- A digit moves from the rest to the bytes written.
pub digit_written :
    (k low top v rest total : ℕ)
    → low + 256 ^ k * top ≡ total
    → top ≡ v + 256 * rest
    → low + 256 ^ k * v + 256 ^ suc k * rest ≡ total
digit_written k low top v rest total e d =
    omega (arith, e, ap (λ (t : ℕ). 256 ^ k * t) d, ap (λ (t : ℕ). t * rest) (pow-suc 256 k))
