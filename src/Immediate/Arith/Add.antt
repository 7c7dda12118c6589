-- ===== src/Immediate/Arith/Add.antt =====
-- reil/immediate.cpp: `operator+` and `operator-`. The loop counter is a `uint8_t`, so the loops
-- need not end: they run on fuel. A loop whose counter has come back to an old value never ends,
-- so 257 rounds are as good as any number.
mod Loops
pub mod Sums
pub mod Endless
use reil.Base.{
  ℕ, zero, suc, ◌+◌, ◌-◌, ◌*◌, ◌/◌, ◌^◌, ltb, ◌==◌, if◌then◌else◌, u8, u16, length, get_or, set,
  Run, ok, fault, out_of_fuel, check_failed, undefined, check, ◌>>=◌, ◌>>◌,
}
use reil.Immediate.{Immediate, size, from_value}

abbrev pub loop_fuel : ℕ
loop_fuel = 257

-- `for (i = 0; i < lhs.bytes_.size(); ++i)` of `+`, which adds byte by byte with a carry in `tmp`
unfoldable pub add_low : ℕ → ℕ → ℕ → Immediate → Immediate → Immediate → Run (ℕ × ℕ × Immediate)
add_low zero i tmp result lhs rhs = fault out_of_fuel
add_low (suc fuel) i tmp result lhs rhs =
    let sum = u16 (tmp + get_or lhs i 0 + get_or rhs i 0) in
    let rest = add_low fuel (u8 (i + 1)) (sum / 2 ^ 8) (set result i (u8 sum)) lhs rhs in
    if ltb i (length lhs) then rest else ok (i, tmp, result)

-- `for (; i < result.bytes_.size(); ++i) { result.bytes_[i] = v; }`
unfoldable pub fill : ℕ → ℕ → ℕ → Immediate → Run Immediate
fill zero i v result = fault out_of_fuel
fill (suc fuel) i v result =
    let rest = fill fuel (u8 (i + 1)) v (set result i v) in
    if ltb i (length result) then rest else ok result

unfoldable pub add_with : ℕ → Immediate → Immediate → Run Immediate
add_with fuel lhs rhs = do
  check (length lhs == length rhs) check_failed
  (i, tmp, result) ← add_low fuel 0 0 (from_value (u16 (size lhs * 2)) 0) lhs rhs
  check (ltb i (length result)) undefined
  fill fuel (u8 (i + 1)) 0 (set result i (u8 tmp))

unfoldable pub add : Immediate → Immediate → Run Immediate
add lhs rhs = add_with loop_fuel lhs rhs

-- `x >>= 8` of an `int16_t`, given and returned as its 16-bit pattern.
unfoldable pub asr8 : ℕ → ℕ
asr8 t = if ltb t 0x8000 then t / 2 ^ 8 else t / 2 ^ 8 + 0xff00

-- The loop of `-`; the `int16_t` `tmp` is its 16-bit pattern.
unfoldable pub sub_low : ℕ → ℕ → ℕ → Immediate → Immediate → Immediate → Run (ℕ × ℕ × Immediate)
unfolding asr8
sub_low zero i tmp result lhs rhs = fault out_of_fuel
sub_low (suc fuel) i tmp result lhs rhs =
    let diff = u16 (tmp + get_or lhs i 0 + 2 ^ 16 - get_or rhs i 0) in
    let rest = sub_low fuel (u8 (i + 1)) (asr8 diff) (set result i (u8 diff)) lhs rhs in
    if ltb i (length lhs) then rest else ok (i, tmp, result)

unfoldable pub sub_with : ℕ → Immediate → Immediate → Run Immediate
sub_with fuel lhs rhs = do
  check (length lhs == length rhs) check_failed
  (i, tmp, result) ← sub_low fuel 0 0 (from_value (u16 (size lhs * 2)) 0) lhs rhs
  fill fuel i (u8 tmp) result

unfoldable pub sub : Immediate → Immediate → Run Immediate
sub lhs rhs = sub_with loop_fuel lhs rhs
