-- ===== src/Immediate/Shift.antt =====
-- reil/immediate.cpp: the shifts, `Extract` and the constant masks of `Immediate`.
pub mod Right
pub mod Left
pub mod Extract
use reil.Base.{
  ℕ, zero, suc, ◌+◌, ◌-◌, ◌*◌, ◌/◌, ◌%◌, ◌^◌, not, ◌&&◌, List, ltb, leb, ◌==◌, if◌then◌else◌, u8,
  u16, ◌++◌, length, get_or, set, take, drop, memset, Run, ok, check_failed, check, ◌>>◌, bit_or,
}
use reil.Immediate.{Immediate, size, from_value, resize, zero_extend, to_uint64}

-- `memmove(data + to, data + from, n)`, where both ranges lie inside
abbrev pub memmove : List ℕ → ℕ → ℕ → ℕ → List ℕ
memmove a to from n = take to a ++ take n (drop from a) ++ drop (to + n) a

-- The loop of `<<=` at index `i`, which goes down.
shl_loop : ℕ → ℕ → ℕ → ℕ → Immediate → Immediate
shl_loop byte_shift bit_shift zero i a = a
shl_loop byte_shift bit_shift (suc rounds) i a = shl_loop byte_shift bit_shift rounds (i - 1) (
    set a i (
      u8 (
        bit_or (get_or a (i - byte_shift) 0 * 2 ^ bit_shift)
          (get_or a (i - byte_shift - 1) 0 / 2 ^ (8 - bit_shift)))))

-- `operator<<=(uint16_t rhs)` on bytes whose number is `byte_width`
pub shl_bytes : Immediate → ℕ → Immediate
unfolding shl_loop
shl_bytes a rhs =
    let byte_width = length a in
    let byte_shift = rhs / 8 in
    let bit_shift = rhs % 8 in
    if leb byte_width byte_shift
    then memset a 0 0 byte_width
    else if not (bit_shift == 0)
    then (let moved =
          shl_loop byte_shift bit_shift (byte_width - 1 - byte_shift) (byte_width - 1) a in
        memset (set moved byte_shift (u8 (get_or moved 0 0 * 2 ^ bit_shift))) 0 0 byte_shift)
    else memset (memmove a byte_shift 0 (byte_width - byte_shift)) 0 0 byte_shift

-- `byte_width` is the number of bytes as a `uint16_t`; those from it on stay as they are.
unfoldable pub shl : Immediate → ℕ → Immediate
unfolding shl_bytes
shl a rhs =
    let byte_width = u16 (length a) in shl_bytes (take byte_width a) rhs ++ drop byte_width a

-- The loop of `>>=` at index `i`, which goes up.
shr_loop : ℕ → ℕ → ℕ → ℕ → Immediate → Immediate
shr_loop byte_shift bit_shift zero i a = a
shr_loop byte_shift bit_shift (suc rounds) i a = shr_loop byte_shift bit_shift rounds (i + 1) (
    set a (i - byte_shift)
      (u8 (bit_or (get_or a i 0 / 2 ^ bit_shift) (get_or a (i + 1) 0 * 2 ^ (8 - bit_shift)))))

-- `operator>>=(uint16_t rhs)` on bytes whose number is `byte_width`
pub shr_bytes : Immediate → ℕ → Immediate
unfolding shr_loop
shr_bytes a rhs =
    let byte_width = length a in
    let byte_shift = rhs / 8 in
    let bit_shift = rhs % 8 in
    if leb byte_width byte_shift
    then memset a 0 0 byte_width
    else if not (bit_shift == 0)
    then (let moved = shr_loop byte_shift bit_shift (byte_width - 1 - byte_shift) byte_shift a in
        let top = byte_width - 1 - byte_shift in
        memset (set moved top (get_or moved (byte_width - 1) 0 / 2 ^ bit_shift))
          (byte_width - byte_shift) 0 byte_shift)
    else memset (memmove a 0 byte_shift (byte_width - byte_shift)) (byte_width - byte_shift) 0
        byte_shift

-- `byte_width` is the number of bytes as a `uint16_t`; those from it on stay as they are.
unfoldable pub shr : Immediate → ℕ → Immediate
unfolding shr_bytes
shr a rhs =
    let byte_width = u16 (length a) in shr_bytes (take byte_width a) rhs ++ drop byte_width a

-- The shifts by an `Immediate`: its 64-bit value is converted to the `uint16_t` of the shift.
unfoldable pub shl_by : Immediate → Immediate → Immediate
shl_by a rhs = shl a (u16 (to_uint64 rhs))

unfoldable pub shr_by : Immediate → Immediate → Immediate
shr_by a rhs = shr a (u16 (to_uint64 rhs))

unfoldable pub extract : Immediate → ℕ → ℕ → Run Immediate
extract a new_size offset = do
  check (ltb offset (size a) && leb new_size (size a - offset)) check_failed
  ok (if offset == 0 then resize new_size a else resize new_size (shr a offset))

-- `Mask(size, mask_size)`
unfoldable pub mask : ℕ → ℕ → Immediate
mask size mask_size =
    let ones = from_value mask_size 0 in zero_extend (memset ones 0 0xff (length ones)) size

-- `SignBit(size, mask_size)`; `mask_size - 1` is converted to `uint16_t`.
unfoldable pub sign_bit : ℕ → ℕ → Immediate
sign_bit size mask_size = shl (from_value size 1) (u16 (mask_size + 2 ^ 16 - 1))

unfoldable pub carry_bit : ℕ → ℕ → Immediate
carry_bit size mask_size = shl (from_value size 1) mask_size

unfoldable pub signed_min : ℕ → ℕ → Immediate
signed_min size mask_size = shl (mask size size) (u16 (mask_size + 2 ^ 16 - 1))

unfoldable pub signed_max : ℕ → ℕ → Immediate
signed_max size mask_size = shr (mask size mask_size) 1

unfoldable pub unsigned_max : ℕ → ℕ → Immediate
unsigned_max size mask_size = mask size mask_size
