-- ===== src/Aarch64/Decoder/Masks/Reference.antt =====
-- `decode_bit_masks` against the rotated and replicated runs of ones that it stands for.
use reil.Base.{
  ℕ, ◌+◌, ◌-◌, ◌*◌, ◌/◌, ◌%◌, ◌^◌, ◌<◌, ◌≡◌, refl, ap₂, Bool, true, ◌&&◌, ltb, ◌==◌, if◌then◌else◌,
  arith, ==_iff,
}
use reil.Base.Powers.{passes, passes_at}
use reil.Aarch64.Decoder.Masks.{shrink, replicate_mask, decode_bit_masks}

-- The size of an element, by the ones at the front of the six bits of `imms`.
abbrev pub element_size : ℕ → ℕ → ℕ
element_size imm_n imms =
    if imm_n == 1
    then 64
    else if ltb imms 0b100000
    then 32
    else if ltb imms 0b110000
    then 16
    else if ltb imms 0b111000
    then 8
    else if ltb imms 0b111100
    then 4
    else if ltb imms 0b111110
    then 2
    else 1

-- `count` ones.
abbrev pub ones : ℕ → ℕ
ones count = 2 ^ count - 1

-- Rotation to the right by `count` of a number of `width` bits.
abbrev pub rotate_right : ℕ → ℕ → ℕ → ℕ
rotate_right width count n = n / 2 ^ count + n % 2 ^ count * 2 ^ (width - count)

-- 64 bits filled with copies of a number of `width` bits.
abbrev pub copies : ℕ → ℕ → ℕ
copies width n = n * ((2 ^ 64 - 1) / (2 ^ width - 1))

-- The run of ones whose length and rotation `imms` and `immr` give within an element.
abbrev pub rotated_ones : ℕ → ℕ → ℕ → ℕ
rotated_ones imm_n imms immr =
    let e = element_size imm_n imms in copies e (rotate_right e (immr % e) (ones (imms % e + 1)))

-- The ones from the lowest bit to the highest that the rotation leaves.
abbrev pub unrotated_ones : ℕ → ℕ → ℕ → ℕ
unrotated_ones imm_n imms immr =
    let e = element_size imm_n imms in copies e (ones ((imms % e + e - immr % e) % e + 1))

agrees : ℕ → ℕ → ℕ → Bool
agrees imm_n imms immr =
    (decode_bit_masks imm_n imms immr).0 == rotated_ones imm_n imms immr
    && (decode_bit_masks imm_n imms immr).1 == unrotated_ones imm_n imms immr

all_agree : passes 2 (λ n. passes 64 (λ s. passes 64 (λ r. agrees n s r))) ≡ true
unfolding agrees decode_bit_masks shrink replicate_mask
all_agree = refl

ands : (a b : Bool) → (a && b) ≡ true → (a ≡ true) × (b ≡ true)
ands a b h = ground arith

-- The masks of every encoding are the ones rotated within an element, and the ones that the
-- rotation leaves, each copied over 64 bits.
pub decode_bit_masks-rotated_ones :
    (imm_n imms immr : ℕ)
    → imm_n < 2
    → imms < 64
    → immr < 64
    → decode_bit_masks imm_n imms immr
      ≡ (rotated_ones imm_n imms immr, unrotated_ones imm_n imms immr)
unfolding agrees
decode_bit_masks-rotated_ones imm_n imms immr hn hs hr =
    let masks = decode_bit_masks imm_n imms immr in
    let tables =
      passes_at 2 (λ n. passes 64 (λ s. passes 64 (λ r. agrees n s r))) imm_n all_agree hn in
    let table = passes_at 64 (λ s. passes 64 (λ r. agrees imm_n s r)) imms tables hs in
    let entry = passes_at 64 (λ r. agrees imm_n imms r) immr table hr in
    let both =
      ands (masks.0 == rotated_ones imm_n imms immr) (masks.1 == unrotated_ones imm_n imms immr)
        entry in
    ap₂ (λ x y. (x, y)) ((==_iff masks.0 (rotated_ones imm_n imms immr)).0 both.0)
      ((==_iff masks.1 (unrotated_ones imm_n imms immr)).0 both.1)
