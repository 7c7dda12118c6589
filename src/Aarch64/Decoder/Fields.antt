-- ===== src/Aarch64/Decoder/Fields.antt =====
-- The fields of an opcode as quotients and remainders.
use native.Mathlib.Nat.{
  pow-suc, one-le-pow, mod_def, mod-lt, mul-div_cancel_left, mul-div-le, le_refl,
}
use reil.Base.{
  ℕ, zero, suc, ◌+◌, ◌-◌, ◌*◌, ◌/◌, ◌%◌, ◌^◌, ◌≤◌, ◌<◌, ◌≡◌, refl, ap, ap₂, sym, ◌∙◌, true, leb,
  ◌==◌, if◌then◌else◌, bit_and, arith, ==_iff, le→leb, min,
}
use reil.Base.Bitwise.{bit_and-IsDigitwise, op-join}
use reil.Base.Powers.{passes, passes_at}
use reil.Aarch64.Decoder.Bits.{field_mask, bits}

and_zero_fuel : (n a : ℕ) → a ≤ n → bit_and a 0 ≡ 0
and_zero_fuel n zero h = bit_and-IsDigitwise.none
and_zero_fuel zero (suc a) h = absurd (omega arith)
and_zero_fuel (suc n) (suc a) h =
    omega (arith, bit_and-IsDigitwise.digit (suc a) 0, and_zero_fuel n (suc a / 2) (omega arith))

and_zero : (a : ℕ) → bit_and a 0 ≡ 0
and_zero a = and_zero_fuel a a (le_refl a)

keep_all : (w r : ℕ) → r < 2 ^ w → bit_and r (2 ^ w - 1) ≡ r
keep_all zero r h = let e : r ≡ 0 = omega arith in rw (e, bit_and-IsDigitwise.none) refl
keep_all (suc w) r h =
    let some_power = one-le-pow w 2 (omega arith) in
    let half : (2 ^ suc w - 1) / 2 ≡ 2 ^ w - 1 = omega (arith, pow-suc 2 w, some_power) in
    let odd : (2 ^ suc w - 1) % 2 ≡ 1 = omega (arith, pow-suc 2 w, some_power) in
    omega (
      arith,
      bit_and-IsDigitwise.digit r (2 ^ suc w - 1),
      ap (bit_and (r / 2)) half,
      ap (min (r % 2)) odd,
      keep_all w (r / 2) (omega (arith, pow-suc 2 w)),
    )

-- `a & (2^w - 1)` is a remainder.
pub and_ones : (w a : ℕ) → bit_and a (2 ^ w - 1) ≡ a % 2 ^ w
and_ones w a =
    let r = a % 2 ^ w in
    let q = a / 2 ^ w in
    let some_power = one-le-pow w 2 (omega arith) in
    let fits : r < 2 ^ w = mod-lt a some_power in
    let parts : r + 2 ^ w * q ≡ a = omega (arith, mod_def a (2 ^ w), mul-div-le a (2 ^ w)) in
    let ones : 2 ^ w - 1 + 2 ^ w * 0 ≡ 2 ^ w - 1 = omega arith in
    ap₂ bit_and (sym parts) (sym ones)
    ∙ op-join bit_and min bit_and-IsDigitwise w r (2 ^ w - 1) q 0 fits (omega arith)
    ∙ omega (arith, keep_all w r fits, ap (λ (t : ℕ). 2 ^ w * t) (and_zero q))

-- The masks of all fields of an opcode.
masks :
    passes 32 (λ l.
      passes 32 (λ m. if leb l m then field_mask l m == 2 ^ l * (2 ^ (m - l + 1) - 1) else true))
    ≡ true
masks = refl

pub field_mask-value : (l m : ℕ) → l ≤ m → m < 32 → field_mask l m ≡ 2 ^ l * (2 ^ (m - l + 1) - 1)
field_mask-value l m le lt =
    let row =
      passes_at 32
        (λ k.
          passes 32
            (λ j. if leb k j then field_mask k j == 2 ^ k * (2 ^ (j - k + 1) - 1) else true))
        l masks (omega arith) in
    let entry =
      passes_at 32 (λ j. if leb l j then field_mask l j == 2 ^ l * (2 ^ (j - l + 1) - 1) else true)
        m row lt in
    (==_iff (field_mask l m) (2 ^ l * (2 ^ (m - l + 1) - 1))).0 (
      sym (
        ap (λ b. if b then field_mask l m == 2 ^ l * (2 ^ (m - l + 1) - 1) else true)
          (le→leb l m le))
      ∙ entry)

-- The field of `m - l + 1` bits that starts at bit `l`.
pub bits-value :
    (opcode l m : ℕ) → l ≤ m → m < 32 → bits opcode l m ≡ opcode / 2 ^ l % 2 ^ (m - l + 1)
unfolding bits
bits-value opcode l m le lt =
    let p = 2 ^ l in
    let ones = 2 ^ (m - l + 1) - 1 in
    let r = opcode % p in
    let q = opcode / p in
    let some_power = one-le-pow l 2 (omega arith) in
    let fits : r < p = mod-lt opcode some_power in
    let parts : r + p * q ≡ opcode =
      omega (arith, mod_def opcode (2 ^ l), mul-div-le opcode (2 ^ l)) in
    let mask : 0 + p * ones ≡ field_mask l m = omega (arith, field_mask-value l m le lt) in
    let low : bit_and opcode (field_mask l m) ≡ p * bit_and q ones =
      ap₂ bit_and (sym parts) (sym mask)
      ∙ op-join bit_and min bit_and-IsDigitwise l r 0 q ones fits (omega arith)
      ∙ omega (arith, and_zero r) in
    ap (λ (t : ℕ). t / 2 ^ l) low
    ∙ mul-div_cancel_left (bit_and q ones) some_power
    ∙ and_ones (m - l + 1) q
