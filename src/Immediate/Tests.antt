-- ===== src/Immediate/Tests.antt =====
-- Runs of the operations of `Immediate` at concrete values, and its theorems at them.
use reil.Base.{◌∷◌, [], arith, true, All, Returns, ℕ, ◌≡◌, refl, Run, ok, fault, out_of_fuel, ◌>>=◌}
use reil.Immediate.{
  IsByte, zeros, Immediate, from_value, to_uint64, size, resize, zero_extend, sign_extend, equal,
  less, less_equal, greater, greater_equal, to_bool, to_uint,
}
use reil.Immediate.Shift.{shl, shr, extract}
use reil.Immediate.Arith.Add.{add, sub, add_with, sub_with, add_low, sub_low, fill}
use reil.Immediate.Convert.{Bytes, sign_extend-signed, to_bool-value, to_uint64-from_value}
use reil.Immediate.Compare.{Compares, comparisons_by_value}
use reil.Immediate.Shift.Right.{shr-value}
use reil.Immediate.Shift.Left.{shl-value}
use reil.Immediate.Shift.Extract.{extract-value}
use reil.Immediate.Logic.Values.{Combines, logic_by_value}
use reil.Immediate.Arith.Add.Sums.{add-value, sub-value}
use reil.Immediate.Arith.Add.Endless.{add_with-endless, sub_with-endless}
use reil.Immediate.Arith.Mul.{mul, lattice_multiply}
use reil.Immediate.Arith.Div.{div, modulus, binary_long_divide, binary_long_modulus}

run : Unit {0}
unfolding from_value to_uint size resize zero_extend sign_extend equal less less_equal greater
    greater_equal to_bool shl shr extract add sub add_with sub_with add_low sub_low fill mul
    lattice_multiply div modulus binary_long_divide binary_long_modulus
run = tt

abbrev num : Run Immediate → Run ℕ
num r = r >>= λ a. ok (to_uint64 a)

add_carries : num (add (from_value 32 0xffffffff) (from_value 32 2)) ≡ ok 0x100000001
unfolding run
add_carries = refl

sub_borrows : num (sub (from_value 32 1) (from_value 32 2)) ≡ ok 0xffffffffffffffff
unfolding run
sub_borrows = refl

mul_by_lattice : num (mul (from_value 40 0xffffffff) (from_value 40 0x10001)) ≡ ok 0x10000fffeffff
unfolding run
mul_by_lattice = refl

div_128 : num (div (from_value 128 1000) (from_value 128 7)) ≡ ok 142
unfolding run
div_128 = refl

modulus_128 : num (modulus (from_value 128 1000) (from_value 128 7)) ≡ ok 6
unfolding run
modulus_128 = refl

div_of_double : num (div (from_value 128 4) (from_value 128 2)) ≡ ok 1
unfolding run
div_of_double = refl

modulus_of_double : num (modulus (from_value 128 4) (from_value 128 2)) ≡ ok 2
unfolding run
modulus_of_double = refl

add_1024_endless : num (add (from_value 1024 4) (from_value 1024 2)) ≡ fault out_of_fuel
unfolding run
add_1024_endless = refl

mul_1024_endless : num (mul (from_value 1024 4) (from_value 1024 2)) ≡ fault out_of_fuel
unfolding run
mul_1024_endless = refl

shl_twelve : to_uint64 (shl (from_value 64 0x123456789abcdef0) 12) ≡ 0x456789abcdef0000
unfolding run
shl_twelve = refl

shr_twelve : to_uint64 (shr (from_value 64 0x123456789abcdef0) 12) ≡ 0x000123456789abcd
unfolding run
shr_twelve = refl

abbrev two_ones : Immediate
two_ones = 0xff ∷ 0xff ∷ []

abbrev minus_two : Immediate
minus_two = 0xfe ∷ 0xff ∷ []

abbrev three : Immediate
three = 3 ∷ 0 ∷ []

two_ones-IsByte : All IsByte two_ones
two_ones-IsByte = (omega arith, (omega arith, tt))

minus_two-IsByte : All IsByte minus_two
minus_two-IsByte = (omega arith, (omega arith, tt))

three-IsByte : All IsByte three
three-IsByte = (omega arith, (omega arith, tt))

add-value_example : Returns (add two_ones three) (Bytes 4 0x10002)
add-value_example =
    add-value two_ones three two_ones-IsByte three-IsByte refl (omega arith) (omega arith)

sub-value_example : Returns (sub three two_ones) (Bytes 4 0xffff0004)
sub-value_example =
    sub-value three two_ones three-IsByte two_ones-IsByte refl (omega arith) (omega arith)

add_with-endless_example : add_with 5000 (zeros 200) (zeros 200) ≡ fault out_of_fuel
add_with-endless_example =
    add_with-endless 5000 (zeros 200) (zeros 200) refl (omega arith) (omega arith)

sub_with-endless_example : sub_with 5000 (zeros 200) (zeros 200) ≡ fault out_of_fuel
sub_with-endless_example =
    sub_with-endless 5000 (zeros 200) (zeros 200) refl (omega arith) (omega arith)

comparisons_by_value_example : Compares two_ones three
comparisons_by_value_example =
    comparisons_by_value two_ones three two_ones-IsByte three-IsByte refl (omega arith)

sign_extend-signed_example : Returns (sign_extend minus_two 32) (Bytes 4 0xfffffffe)
sign_extend-signed_example =
    sign_extend-signed minus_two 32 minus_two-IsByte (omega arith) (omega arith)

to_bool-value_example : to_bool three ≡ ok true
to_bool-value_example = to_bool-value three (omega arith)

to_uint64-from_value_example : to_uint64 (from_value 16 0x12345) ≡ 0x2345
to_uint64-from_value_example = to_uint64-from_value 16 0x12345 (omega arith)

shr-value_example : Bytes 2 0x1fff (shr minus_two 3)
shr-value_example = shr-value minus_two 3 minus_two-IsByte (omega arith) (omega arith)

shl-value_example : Bytes 2 0xfff0 (shl minus_two 3)
shl-value_example = shl-value minus_two 3 minus_two-IsByte (omega arith) (omega arith)

extract-value_example : Returns (extract minus_two 8 4) (Bytes 1 0xff)
unfolding size
extract-value_example = extract-value minus_two 8 4 minus_two-IsByte (omega arith) (omega arith)

logic_by_value_example : Combines minus_two three
logic_by_value_example =
    logic_by_value minus_two three minus_two-IsByte three-IsByte refl (omega arith)
