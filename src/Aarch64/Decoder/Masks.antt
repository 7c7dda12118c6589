-- ===== src/Aarch64/Decoder/Masks.antt =====
-- reil/aarch64/decoder.cpp: `decode_bit_masks`.
pub mod Reference
use reil.Base.{
  ℕ, zero, suc, ◌+◌, ◌-◌, ◌*◌, ◌/◌, ◌^◌, ◌&&◌, not, ltb, leb, ◌==◌, if◌then◌else◌, u64, bit_and,
  bit_or,
}

-- `~x` of a `uint64_t`
abbrev complement : ℕ → ℕ
complement n = 2 ^ 64 - 1 - n

-- `while (element_size >= 2 && !(element_size & (~imms))) element_size >>= 1;` which starts from 32
-- and so takes at most five rounds.
unfoldable pub shrink : ℕ → ℕ → ℕ → ℕ
shrink zero imms element_size = element_size
shrink (suc rounds) imms element_size =
    let rest = shrink rounds imms (element_size / 2) in
    if leb 2 element_size && bit_and element_size (complement imms) == 0 then rest else element_size

-- `while (element_size && element_size < 64) { mask |= mask << element_size; element_size <<= 1; }`
-- which takes at most six rounds.
unfoldable pub replicate_mask : ℕ → ℕ → ℕ → ℕ
replicate_mask zero element_size mask = mask
replicate_mask (suc rounds) element_size mask =
    let rest =
      replicate_mask rounds (element_size * 2) (bit_or mask (u64 (mask * 2 ^ element_size))) in
    if not (element_size == 0) && ltb element_size 64 then rest else mask

-- `0xffffffffffffffffull >> (64 - (n + 1))`
abbrev ones_from : ℕ → ℕ
ones_from n = (2 ^ 64 - 1) / 2 ^ (64 - (n + 1))

-- `wmask` and `tmask`
unfoldable pub decode_bit_masks : ℕ → ℕ → ℕ → ℕ × ℕ
unfolding shrink replicate_mask
decode_bit_masks imm_n imms immr =
    let element_size = if not (imm_n == 0) then 64 else shrink 6 imms 32 in
    let element_mask = if not (imm_n == 0) then 2 ^ 64 - 1 else 2 ^ element_size - 1 in
    let s = bit_and imms (element_size - 1) in
    let r = bit_and immr (element_size - 1) in
    let d = bit_and (u64 (s + 2 ^ 64 - r)) (element_size - 1) in
    let welement =
      if not (r == 0)
      then bit_or (bit_and (u64 (ones_from s * 2 ^ (element_size - r))) element_mask)
          (ones_from s / 2 ^ r)
      else ones_from s in
    (replicate_mask 7 element_size welement, replicate_mask 7 element_size (ones_from d))
