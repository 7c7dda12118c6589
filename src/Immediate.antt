-- ===== src/Immediate.antt =====
-- reil/immediate.h and reil/immediate.cpp: the class `Immediate`, a bit vector of whole bytes.
-- An `Immediate` is its member `bytes_`, the least significant byte first. This file has the
-- constructors, the resizing operations, the conversions and the comparisons; the children have
-- the arithmetic (`Arith`), the bit operations (`Logic`) and the shifts (`Shift`).
pub mod Value
pub mod Write
pub mod Convert
pub mod Compare
pub mod Shift
pub mod Logic
pub mod Arith
mod Tests
use reil.Base.{
  ℕ, zero, suc, ◌+◌, ◌-◌, ◌*◌, ◌/◌, ◌%◌, ◌^◌, ◌≤◌, ◌<◌, min, ◌≡◌, refl, Bool, true, false, not,
  ◌&&◌, ◌||◌, List, [], ◌∷◌, ◌++◌, ltb, leb, ◌==◌, if◌then◌else◌, u8, u16, u64, length, get_or,
  take, drop, replicate, All, memcpy, memset, Run, ok, fault, check_failed, undefined, out_of_fuel,
  check, ◌>>=◌, ◌>>◌, bit_and,
}

abbrev pub Immediate : Type 0
Immediate = List ℕ

abbrev pub IsByte : ℕ → Type 0
IsByte b = b < 256

-- The number that a sequence of bytes stands for, as `memcpy` to an integer reads it.
abbrev pub value : List ℕ → ℕ
value [] = 0
value (b ∷ bs) = b + 256 * value bs

-- The bytes of an integer of `n` bytes in memory, on a little-endian host.
abbrev pub object_bytes : ℕ → ℕ → List ℕ
object_bytes zero v = []
object_bytes (suc n) v = (v % 256) ∷ object_bytes n (v / 256)

-- `n` bytes that are zero, as a vector has them when it is made with a size.
abbrev pub zeros : ℕ → List ℕ
zeros n = replicate n 0

-- `bytes_.size() * 8` as `uint16_t`
unfoldable pub size : Immediate → ℕ
size a = u16 (length a * 8)

-- `Immediate(uint16_t size, uint64_t value)`
unfoldable pub from_value : ℕ → ℕ → Immediate
from_value size v =
    let n = size / 8 in
    if ltb n 8
    then memcpy (zeros n) (object_bytes 8 v) n
    else memcpy (memset (zeros n) 0 0 n) (object_bytes 8 v) 8

-- `Immediate(uint16_t size, const Immediate &value)`
unfoldable pub resize : ℕ → Immediate → Immediate
resize size a =
    let n = size / 8 in
    if ltb n (length a) then memcpy (zeros n) a n else memcpy (memset (zeros n) 0 0 n) a (length a)

-- `Immediate(const uint8_t *bytes, size_t bytes_len)`, and the constructor from a span
unfoldable pub from_bytes : List ℕ → ℕ → Immediate
from_bytes bytes bytes_len = memcpy (zeros bytes_len) bytes bytes_len

unfoldable pub zero_extend : Immediate → ℕ → Immediate
zero_extend a size = resize size a

-- The index of the last byte of an empty vector lies outside it, and so does the end of a
-- vector that has got shorter.
unfoldable pub sign_extend : Immediate → ℕ → Run Immediate
sign_extend a new_size =
    let result = resize new_size a in
    if length a == 0
    then fault undefined
    else if bit_and (get_or a (length a - 1) 0) 0x80 == 0
    then ok result
    else if leb (length a) (length result)
    then ok (memset result (length a) 0xff (length result - length a))
    else fault undefined

-- The rounds after which a loop `for (uint16_t i = 0; i < bytes_.size(); ++i)` has ended or is back
-- at index 0, and so never ends.
abbrev pub all_rounds : Immediate → ℕ
all_rounds a = min (length a) 0x10000

-- `operator bool`, from index `i` with `rounds` of the loop left
any_set : ℕ → ℕ → Immediate → Run Bool
any_set zero i a = if ltb i (length a) then fault out_of_fuel else ok false
any_set (suc rounds) i a =
    let rest = any_set rounds (u16 (i + 1)) a in
    if ltb i (length a) then if not (get_or a i 0 == 0) then ok true else rest else ok false

unfoldable pub to_bool : Immediate → Run Bool
unfolding any_set
to_bool a = any_set (all_rounds a) 0 a

-- `operator uint8_t` to `operator uint64_t`, for an integer of `width` bytes
unfoldable pub to_uint : ℕ → Immediate → ℕ
to_uint width a = value (memcpy (object_bytes width 0) a (min (length a) width))

abbrev pub to_uint64 : Immediate → ℕ
to_uint64 = to_uint 8

-- `memcmp(a, b, n) == 0`
same_bytes : ℕ → List ℕ → List ℕ → Bool
same_bytes zero a b = true
same_bytes (suc n) a b = get_or a 0 0 == get_or b 0 0 && same_bytes n (drop 1 a) (drop 1 b)

unfoldable pub equal : Immediate → Immediate → Run Bool
unfolding same_bytes
equal a b = do check (length a == length b) check_failed; ok (same_bytes (length a) a b)

-- The loop of `<` and `<=` at `i`, which counts from the last byte down; `tie` is what it returns at
-- the end. For the greatest `uint16_t` as the width, `i` wraps to 0 and then comes back to 1.
compare_down : Bool → ℕ → ℕ → ℕ → Immediate → Immediate → Run Bool
compare_down tie zero i byte_width a b = fault out_of_fuel
compare_down tie (suc rounds) i byte_width a b =
    let rest = compare_down tie rounds (u16 (i + 1)) byte_width a b in
    let j = byte_width - i in
    if ltb byte_width i
    then ok tie
    else if leb (length a) j
    then fault undefined
    else if ltb (get_or a j 0) (get_or b j 0)
    then ok true
    else if ltb (get_or b j 0) (get_or a j 0)
    then ok false
    else rest

-- `byte_width` is a `uint16_t`; after `byte_width + 2` rounds the loop has ended or never does.
compare_with : Bool → Immediate → Immediate → Run Bool
unfolding compare_down
compare_with tie a b =
    let byte_width = u16 (length a) in
    check (length a == length b) check_failed
    >> compare_down tie (suc (suc byte_width)) 1 byte_width a b

unfoldable pub less : Immediate → Immediate → Run Bool
unfolding compare_with
less a b = compare_with false a b

unfoldable pub less_equal : Immediate → Immediate → Run Bool
unfolding compare_with
less_equal a b = compare_with true a b

unfoldable pub not_equal : Immediate → Immediate → Run Bool
not_equal a b = do e ← equal a b; ok (not e)

unfoldable pub greater : Immediate → Immediate → Run Bool
greater a b = less b a

unfoldable pub greater_equal : Immediate → Immediate → Run Bool
greater_equal a b = less_equal b a
