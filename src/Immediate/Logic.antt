-- ===== src/Immediate/Logic.antt =====
-- reil/immediate.cpp: `&=`, `|=`, `^=` and the operators that are defined by them.
pub mod Values
use reil.Base.{
  ℕ, zero, suc, ◌+◌, ◌==◌, length, get_or, set, ltb, if◌then◌else◌, u16, Run, ok, fault, Fault,
  out_of_fuel, check_failed, check, ◌>>◌, bit_and, bit_or, bit_xor,
}
use reil.Immediate.{Immediate, all_rounds}

-- The loop that all three share, at index `i` with `rounds` left; the index is a `uint16_t`.
bytewise : (ℕ → ℕ → ℕ) → ℕ → ℕ → Immediate → Immediate → Run Immediate
bytewise f zero i a b = if ltb i (length a) then fault out_of_fuel else ok a
bytewise f (suc rounds) i a b =
    let rest = bytewise f rounds (u16 (i + 1)) (set a i (f (get_or a i 0) (get_or b i 0))) b in
    if ltb i (length a) then rest else ok a

unfoldable pub and : Immediate → Immediate → Run Immediate
unfolding bytewise
and a b = do check (length a == length b) check_failed; bytewise bit_and (all_rounds a) 0 a b

unfoldable pub or : Immediate → Immediate → Run Immediate
unfolding bytewise
or a b = do check (length a == length b) check_failed; bytewise bit_or (all_rounds a) 0 a b

unfoldable pub xor : Immediate → Immediate → Run Immediate
unfolding bytewise
xor a b = do check (length a == length b) check_failed; bytewise bit_xor (all_rounds a) 0 a b
