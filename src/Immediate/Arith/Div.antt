-- ===== src/Immediate/Arith/Div.antt =====
-- reil/immediate.cpp: `operator/` and `operator%`, by machine division or binary long division.
-- The long division's messages to `std::cerr` are left out.
use reil.Base.{
  ℕ, zero, suc, ◌+◌, ◌-◌, ◌*◌, ◌/◌, ◌%◌, ◌^◌, not, ◌==◌, if◌then◌else◌, u8, u16, length, get_or,
  set, Run, ok, check_failed, undefined, check, ◌>>=◌, ◌>>◌, bit_and, bit_or,
}
use reil.Immediate.{
  Immediate, size, from_value, zero_extend, to_uint, to_bool, equal, less, greater_equal,
}
use reil.Immediate.Shift.{shl, shr, extract}
use reil.Immediate.Arith.Add.{sub}

-- `while (!(byte & 0x80)) { byte <<= 1; ++shift; }` for a byte that is not zero, which takes at
-- most seven rounds.
normalise : ℕ → ℕ → ℕ → ℕ
normalise zero byte shift = shift
normalise (suc rounds) byte shift =
    let rest = normalise rounds (u8 (byte * 2)) (u16 (shift + 1)) in
    if bit_and byte 0x80 == 0 then rest else shift

-- The loop that finds the highest byte that is not zero, with `rounds` bytes left to look at.
shift_from : ℕ → Immediate → ℕ
unfolding normalise
shift_from zero a = 0
shift_from (suc rounds) a =
    let rest = shift_from rounds a in
    if get_or a rounds 0 == 0
    then rest
    else normalise 8 (get_or a rounds 0) (u16 (8 * (length a - suc rounds)))

-- The number of zero bits above the highest one; 0 if there is none.
leading_shift : Immediate → ℕ
unfolding shift_from
leading_shift a = shift_from (length a) a

pub record Division : Type 0 where
  pub dividend : Immediate
  pub divisor : Immediate
  pub quotient : Immediate

-- `dividend = (dividend - divisor).Extract(lhs.size() + 8); quotient.bytes_[bit / 8] |= ...`
subtract : ℕ → ℕ → Division → Run Division
subtract width bit d = do
  diff ← sub d.dividend d.divisor
  rest ← extract diff width 0
  ok (record d {
    dividend = rest;
    quotient = set d.quotient (bit / 8) (bit_or (get_or d.quotient (bit / 8) 0) (2 ^ (bit % 8)));
  })

-- `if (dividend >= divisor) { dividend = dividend - divisor; quotient[bit] = 1; }`
subtract_at : ℕ → ℕ → Division → Run Division
unfolding subtract
subtract_at width bit d = do
  enough ← greater_equal d.dividend d.divisor
  let subtracted = subtract width bit d
  (if enough then subtracted else ok d)

-- `while (bit)` and the last round below it
long_loop : ℕ → ℕ → Division → Run Division
unfolding subtract_at
long_loop width zero d = subtract_at width 0 d
long_loop width (suc bit) d = do
  d' ← subtract_at width (suc bit) d
  long_loop width bit (record d' { divisor = shr d'.divisor 1 })

-- `binary_long_divide` and `binary_long_modulus` do the same steps; the second keeps no quotient.
long_division : Immediate → Immediate → Run Division
unfolding leading_shift long_loop
long_division lhs rhs = do
  let dividend = zero_extend lhs (u16 (size lhs + 8))
  let divisor = zero_extend rhs (u16 (size rhs + 8))
  let bit = u16 (leading_shift divisor + 2 ^ 16 - leading_shift dividend)
  let aligned = shl divisor bit
  over ← greater_equal aligned dividend
  let start : Division = record {
    dividend = dividend;
    divisor = if over then shr aligned 1 else aligned;
    quotient = from_value (size lhs) 0;
  }
  long_loop (u16 (size lhs + 8)) (if over then u16 (bit + 2 ^ 16 - 1) else bit) start

unfoldable pub binary_long_divide : Immediate → Immediate → Run Immediate
unfolding long_division
binary_long_divide lhs rhs = do d ← long_division lhs rhs; ok d.quotient

unfoldable pub binary_long_modulus : Immediate → Immediate → Run Immediate
unfolding long_division
binary_long_modulus lhs rhs = do d ← long_division lhs rhs; ok d.dividend

-- A division on machine integers of `width` bytes.
machine : (ℕ → ℕ → ℕ) → ℕ → Immediate → Immediate → Run Immediate
machine op width lhs rhs = do
  check (not (to_uint width rhs == 0)) undefined
  ok (from_value (8 * width) (op (to_uint width lhs) (to_uint width rhs)))

unfoldable pub div : Immediate → Immediate → Run Immediate
unfolding machine
div lhs rhs = do
  check (length lhs == length rhs) check_failed
  let byte_width = u16 (length lhs)
  nonzero ← to_bool rhs
  same ← equal lhs rhs
  let quotient = from_value (size lhs) 0
  let long = binary_long_divide lhs rhs
  let compared = less rhs lhs >>= λ lower. if lower then long else ok quotient
  (if not nonzero
      then ok quotient
      else if same
      then ok (set quotient 0 1)
      else if byte_width == 1
      then machine ◌/◌ 1 lhs rhs
      else if byte_width == 2
      then machine ◌/◌ 2 lhs rhs
      else if byte_width == 4
      then machine ◌/◌ 4 lhs rhs
      else if byte_width == 8
      then machine ◌/◌ 8 lhs rhs
      else compared)

-- `operator%`
unfoldable pub modulus : Immediate → Immediate → Run Immediate
unfolding machine
modulus lhs rhs = do
  check (length lhs == length rhs) check_failed
  let byte_width = u16 (length lhs)
  nonzero ← to_bool rhs
  same ← equal lhs rhs
  let long = binary_long_modulus lhs rhs
  let compared = less rhs lhs >>= λ lower. if lower then long else ok lhs
  (if not nonzero
      then ok (from_value (size lhs) 0)
      else if same
      then ok (from_value (size lhs) 0)
      else if byte_width == 1
      then machine ◌%◌ 1 lhs rhs
      else if byte_width == 2
      then machine ◌%◌ 2 lhs rhs
      else if byte_width == 4
      then machine ◌%◌ 4 lhs rhs
      else if byte_width == 8
      then machine ◌%◌ 8 lhs rhs
      else compared)
