-- ===== src/Immediate/Arith/Mul.antt =====
-- reil/immediate.cpp: `operator*`, by 64-bit multiplication, by a lattice of partial products, or
-- by Karatsuba's method.
use mathlib.Core.Bool.{xor}
use reil.Base.{
  ℕ, zero, suc, ◌+◌, ◌*◌, ◌/◌, ◌^◌, Bool, not, ltb, leb, ◌==◌, if◌then◌else◌, u8, u16, u64, length,
  get_or, set, Run, ok, fault, out_of_fuel, check_failed, check, ◌>>=◌, ◌>>◌,
}
use reil.Immediate.{Immediate, size, from_value, zero_extend, to_uint64, greater}
use reil.Immediate.Shift.{shl, extract}
use reil.Immediate.Arith.Add.{add, sub}

-- The entries of the two lattices, which the first loops write at all their indices.
lattice : Immediate → Immediate → ℕ → ℕ → ℕ
lattice lhs rhs i j = u8 (u16 (get_or lhs i 0 * get_or rhs j 0))

carry_lattice : Immediate → Immediate → ℕ → ℕ → ℕ
carry_lattice lhs rhs i j = u8 (u16 (get_or lhs i 0 * get_or rhs j 0) / 2 ^ 8)

module _ (lhs rhs : Immediate) where
  -- The loop over `y`, at row `x` of diagonal `i`: `byte_value` and `byte_carry` are increased.
  row : ℕ → ℕ → ℕ → ℕ → ℕ × ℕ → ℕ × ℕ
  row i x zero y sums = sums
  row i x (suc rounds) y sums = row i x rounds (y + 1) (
      if x + y == i
      then (u16 (sums.0 + lattice lhs rhs x y), u16 (sums.1 + carry_lattice lhs rhs x y))
      else sums)

  -- The loop over `x`.
  rows : ℕ → ℕ → ℕ → ℕ → ℕ × ℕ → ℕ × ℕ
  unfolding row
  rows i width zero x sums = sums
  rows i width (suc rounds) x sums = rows i width rounds (x + 1) (row i x width 0 sums)

  -- The loop over the diagonals `i`, one for each byte of the result.
  diagonals : ℕ → ℕ → ℕ → ℕ × ℕ → Immediate → Immediate
  unfolding rows
  diagonals width zero i sums result = result
  diagonals width (suc rounds) i sums result =
      let next = rows i width width 0 (u16 (sums.0 / 2 ^ 8 + sums.1), 0) in
      diagonals width rounds (i + 1) next (set result i (u8 next.0))

unfoldable pub lattice_multiply : Immediate → Immediate → Immediate
unfolding lattice carry_lattice diagonals
lattice_multiply lhs rhs =
    let width = length lhs in
    diagonals lhs rhs width (width * 2) 0 (0, 0) (from_value (u16 (size lhs * 2)) 0)

-- `(p - q)` or `(q - p)`, whichever is not negative, cut to `m` bits; and whether `negative` is
-- turned over.
abs_difference : ℕ → Immediate → Immediate → Run (Immediate × Bool)
abs_difference m p q = do
  higher ← greater p q
  d ← (if higher then sub p q else sub q p)
  e ← extract d m 0
  ok (e, not higher)

-- `times` is `operator*`, which calls this function for the parts.
karatsuba_multiply : (Immediate → Immediate → Run Immediate) → Immediate → Immediate → Run Immediate
unfolding abs_difference
karatsuba_multiply times lhs rhs = do
  let n = size lhs
  let m = n / 2
  x₀ ← extract lhs m 0
  x₁ ← extract lhs m m
  y₀ ← extract rhs m 0
  y₁ ← extract rhs m m
  x₀y₀ ← times x₀ y₀
  x₁y₁ ← times x₁ y₁
  (dx, turn_x) ← abs_difference m x₀ x₁
  (dy, turn_y) ← abs_difference m y₀ y₁
  let negative = xor turn_y (not turn_x)
  dxdy ← times dx dy
  sum₁ ← add (shl (zero_extend x₀y₀ (u16 (n * 2))) m) (zero_extend x₀y₀ (u16 (n * 2)))
  tmp₁ ← extract sum₁ (u16 (n * 2)) 0
  let tmp₂ = shl (zero_extend dxdy (u16 (n * 2))) m
  tmp₃ ←
      add (shl (zero_extend x₁y₁ (u16 (n * 2))) (u16 (m * 2)))
        (shl (zero_extend x₁y₁ (u16 (n * 2))) m)
  sum₂ ← (if negative then sub tmp₁ tmp₂ else add tmp₁ tmp₂)
  total ← add sum₂ tmp₃
  extract total (u16 (n * 2)) 0

-- `operator*`; `fuel` bounds the depth of the recursion through `karatsuba_multiply`.
mul_with : ℕ → Immediate → Immediate → Run Immediate
unfolding karatsuba_multiply
mul_with zero lhs rhs = fault out_of_fuel
mul_with (suc fuel) lhs rhs = do
  check (length lhs == length rhs) check_failed
  let slow = karatsuba_multiply (mul_with fuel) lhs rhs
  (if leb (length lhs) 4
      then ok (from_value 64 (u64 (to_uint64 lhs * to_uint64 rhs)))
      else if ltb (length lhs) 0x80
      then ok (lattice_multiply lhs rhs)
      else slow)

-- The size halves with each level and fits 16 bits, so 16 levels are enough.
unfoldable pub mul : Immediate → Immediate → Run Immediate
unfolding mul_with
mul lhs rhs = mul_with 16 lhs rhs
