-- ===== src/Base/Powers.antt =====
-- Powers of a sum, and tables over a byte.
use native.Mathlib.Nat.{pow-suc, pow-zero}
use Prim.Native.Nat.{ℕ, zero, suc, ◌+◌, ◌*◌, ◌^◌, ◌<◌}
use mathlib.Core.Path.{◌≡◌, ap, ◌∙◌}
use mathlib.Core.Bool.{Bool, true, ◌&&◌}
use native.Mathlib.Omega.{arith}

pub pow-add : (b m n : ℕ) → b ^ (m + n) ≡ b ^ m * b ^ n
pow-add b zero n = let e : zero + n ≡ n = omega arith in rw (e, pow-zero) (omega arith)
pow-add b (suc m) n =
    let e : suc m + n ≡ suc (m + n) = omega arith in
    rw (e, pow-suc b (m + n), pow-suc b m) (grind (arith, pow-add b m n))

-- A test that passes at every number below `n`.
abbrev pub passes : ℕ → (ℕ → Bool) → Bool
passes zero test = true
passes (suc n) test = test n && passes n test

pub passes_at : (n : ℕ) (test : ℕ → Bool) (x : ℕ) → passes n test ≡ true → x < n → test x ≡ true
passes_at zero test x h lt = absurd (omega arith)
passes_at (suc n) test x h lt = ground (arith, passes_at n test x)

-- Powers of two by bytes and bits.
pub pow-bytes : (n r : ℕ) → 2 ^ (8 * n + r) ≡ 256 ^ n * 2 ^ r
pow-bytes zero r = let e : 8 * zero + r ≡ r = omega arith in rw e (omega arith)
pow-bytes (suc n) r =
    let e : 8 * suc n + r ≡ 8 + (8 * n + r) = omega arith in
    rw e (
      pow-add 2 8 (8 * n + r)
      ∙ omega (arith, pow-bytes n r, ap (λ (t : ℕ). t * 2 ^ r) (pow-suc 256 n)))
