-- ===== src/Base/Bitwise.antt =====
-- `&`, `|` and `^` act on the binary digits, so on any groups of them.
use Prim.Native.Nat.{
  ℕ, zero, suc, ◌+◌, ◌*◌, ◌/◌, ◌%◌, ◌^◌, ◌≤◌, ◌<◌, min, max, differ, digits, bit_and, bit_or,
  bit_xor, bit_and-bitwise, bit_or-bitwise, bit_xor-bitwise,
}
use mathlib.Core.Path.{◌≡◌, refl, ap, ap₂, sym, ◌∙◌}
use native.Mathlib.Nat.{pow-suc}
use native.Mathlib.Decide.{dec_lt}
use native.Mathlib.Omega.{arith}

-- An operation that computes each binary digit by `f`.
pub record IsDigitwise (op : ℕ → ℕ → ℕ) (f : ℕ → ℕ → ℕ) : Type 0 where
  pub none : op 0 0 ≡ 0
  pub digit : (a b : ℕ) → op a b ≡ op (a / 2) (b / 2) * 2 + f (a % 2) (b % 2)
  pub digit-lt : (x y : ℕ) → x < 2 → y < 2 → f x y < 2

module _ (z : ℕ → ℕ) (f : ℕ → ℕ → ℕ) where
  -- A count of digits that is larger than it need be changes nothing.
  one_spare : (b a n : ℕ) → a ≤ n → digits z f (suc n) a b ≡ digits z f n a b
  one_spare b (suc a) (suc n) le =
      ap (λ t. t * 2 + f (suc a % 2) (b % 2)) (one_spare (b / 2) (suc a / 2) n (omega arith))
  one_spare b (suc a) zero le = absurd (omega arith)
  one_spare b zero (suc n) le = refl
  one_spare b zero zero le = refl

  spare : (count b a : ℕ) → a ≤ count → digits z f a a b ≡ digits z f count a b
  spare zero b a le = let e : a ≡ zero = omega arith in rw e refl
  spare (suc count) b a le = elim (dec_lt count a) [
    | yes exact ↦ let e : a ≡ suc count = omega arith in rw e refl
    | no loose ↦ spare count b a (omega arith) ∙ sym (one_spare b a count (omega arith))
  ]

  lowest_digit :
      (b : ℕ) (a : ℕ)
      → ((c : ℕ) → z c ≡ z (c / 2) * 2 + f 0 (c % 2))
      → digits z f a a b ≡ digits z f (a / 2) (a / 2) (b / 2) * 2 + f (a % 2) (b % 2)
  lowest_digit b (suc a) out = omega (arith, spare a (b / 2) (suc a / 2) (omega arith))
  lowest_digit b zero out = out b

pub bit_and-IsDigitwise : IsDigitwise bit_and min
bit_and-IsDigitwise = record {
  none = refl;
  digit = λ a b. simp bit_and-bitwise (lowest_digit (λ c. zero) min b a (λ c. omega arith));
  digit-lt = λ x y hx hy. omega arith;
}

pub bit_or-IsDigitwise : IsDigitwise bit_or max
bit_or-IsDigitwise = record {
  none = refl;
  digit = λ a b. simp bit_or-bitwise (lowest_digit (λ c. c) max b a (λ c. omega arith));
  digit-lt = λ x y hx hy. omega arith;
}

differ-lt : (x y : ℕ) → x < 2 → y < 2 → differ x y < 2
differ-lt zero y hx hy = hy
differ-lt (suc zero) zero hx hy = hx
differ-lt (suc zero) (suc zero) hx hy = omega arith
differ-lt (suc zero) (suc (suc y)) hx hy = absurd (omega arith)
differ-lt (suc (suc x)) y hx hy = absurd (omega arith)

pub bit_xor-IsDigitwise : IsDigitwise bit_xor differ
bit_xor-IsDigitwise = record {
  none = refl;
  digit = λ a b. simp bit_xor-bitwise (lowest_digit (λ c. c) differ b a (λ c. ground arith));
  digit-lt = differ-lt;
}

module _ (op f : ℕ → ℕ → ℕ) (o : IsDigitwise op f) where
  pub op-lt : (k r s : ℕ) → r < 2 ^ k → s < 2 ^ k → op r s < 2 ^ k
  op-lt zero r s hr hs =
      let p : r ≡ 0 = omega arith in let q : s ≡ 0 = omega arith in rw (p, q, o.none) (omega arith)
  op-lt (suc k) r s hr hs = omega (
    arith,
    o.digit r s,
    o.digit-lt (r % 2) (s % 2) (omega arith) (omega arith),
    op-lt k (r / 2) (s / 2) (omega (arith, pow-suc 2 k)) (omega (arith, pow-suc 2 k)),
    pow-suc 2 k,
  )

  -- Low and high digits are computed apart.
  pub op-join :
      (k r s q t : ℕ)
      → r < 2 ^ k
      → s < 2 ^ k
      → op (r + 2 ^ k * q) (s + 2 ^ k * t) ≡ op r s + 2 ^ k * op q t
  op-join zero r s q t hr hs =
      let p : r ≡ 0 = omega arith in
      let p' : s ≡ 0 = omega arith in
      let x : 0 + 2 ^ 0 * q ≡ q = omega arith in
      let y : 0 + 2 ^ 0 * t ≡ t = omega arith in rw (p, p', x, y, o.none) (omega arith)
  op-join (suc k) r s q t hr hs =
      let two : 2 ^ suc k ≡ 2 ^ k * 2 = pow-suc 2 k in
      let a = r + 2 ^ suc k * q in
      let b = s + 2 ^ suc k * t in
      let xq = ap (λ (w : ℕ). w * q) two in
      let yt = ap (λ (w : ℕ). w * t) two in
      let half_a : a / 2 ≡ r / 2 + 2 ^ k * q = omega (arith, xq) in
      let half_b : b / 2 ≡ s / 2 + 2 ^ k * t = omega (arith, yt) in
      let low_a : a % 2 ≡ r % 2 = omega (arith, xq) in
      let low_b : b % 2 ≡ s % 2 = omega (arith, yt) in
      omega (
        arith,
        o.digit a b,
        o.digit r s,
        ap₂ op half_a half_b,
        ap₂ f low_a low_b,
        op-join k (r / 2) (s / 2) q t (omega (arith, two)) (omega (arith, two)),
        ap (λ (w : ℕ). w * op q t) two,
      )
