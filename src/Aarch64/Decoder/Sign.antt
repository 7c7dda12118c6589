-- ===== src/Aarch64/Decoder/Sign.antt =====
-- `sign_extend_bits` as a number in two's complement.
use native.Mathlib.Nat.{
  pow-suc, one-le-pow, mod_def, mod-lt, mul-div-le, div-eq_of_lt-le, div-div-eq-div-mul,
}
use native.Mathlib.Decide.{dec_lt}
use reil.Base.{
  ℕ, zero, suc, ◌+◌, ◌-◌, ◌*◌, ◌/◌, ◌%◌, ◌^◌, ◌≤◌, ◌<◌, ◌≡◌, refl, ap, ap₂, sym, ◌∙◌, ltb, ◌==◌,
  if◌then◌else◌, bit_and, bit_or, u64, arith, ==_iff, lt→ltb, le→ltb,
}
use reil.Base.Bits.{bit_or_disjoint, bit_or-zero_left}
use reil.Base.Powers.{passes_at, pow-add}
use reil.Aarch64.Decoder.Bits.{bits, sign_extend_bits}
use reil.Aarch64.Decoder.Fields.{and_ones, bits-value}

-- The highest bit of a field of `suc k` bits.
top_clear : (k q : ℕ) → q % 2 ^ suc k < 2 ^ k → q / 2 ^ k % 2 ≡ 0
top_clear k q lt =
    let t = q / 2 ^ suc k in
    let e : q / 2 ^ k ≡ 2 * t =
      div-eq_of_lt-le (2 ^ k)
        (omega (
          arith,
          mod_def q (2 ^ suc k),
          mul-div-le q (2 ^ suc k),
          mod-lt q (one-le-pow (suc k) 2 (omega arith)),
          pow-suc 2 k,
          ap (λ (x : ℕ). x * (q / 2 ^ suc k)) (pow-suc 2 k),
        ))
        (omega (
          arith,
          mod_def q (2 ^ suc k),
          mul-div-le q (2 ^ suc k),
          mod-lt q (one-le-pow (suc k) 2 (omega arith)),
          pow-suc 2 k,
          ap (λ (x : ℕ). x * (q / 2 ^ suc k)) (pow-suc 2 k),
        )) in
    omega arith

top_set : (k q : ℕ) → 2 ^ k ≤ q % 2 ^ suc k → q / 2 ^ k % 2 ≡ 1
top_set k q le =
    let t = q / 2 ^ suc k in
    let e : q / 2 ^ k ≡ 2 * t + 1 =
      div-eq_of_lt-le (2 ^ k)
        (omega (
          arith,
          mod_def q (2 ^ suc k),
          mul-div-le q (2 ^ suc k),
          mod-lt q (one-le-pow (suc k) 2 (omega arith)),
          pow-suc 2 k,
          ap (λ (x : ℕ). x * (q / 2 ^ suc k)) (pow-suc 2 k),
        ))
        (omega (
          arith,
          mod_def q (2 ^ suc k),
          mul-div-le q (2 ^ suc k),
          mod-lt q (one-le-pow (suc k) 2 (omega arith)),
          pow-suc 2 k,
          ap (λ (x : ℕ). x * (q / 2 ^ suc k)) (pow-suc 2 k),
        )) in
    omega arith

-- The ones above a field of `w` bits.
ones_above : (w : ℕ) → w < 33 → u64 ((2 ^ 64 - 1) * 2 ^ w) ≡ (2 ^ (64 - w) - 1) * 2 ^ w
ones_above w lt =
    (==_iff (u64 ((2 ^ 64 - 1) * 2 ^ w)) ((2 ^ (64 - w) - 1) * 2 ^ w)).0
      (passes_at 33 (λ k. u64 ((2 ^ 64 - 1) * 2 ^ k) == (2 ^ (64 - k) - 1) * 2 ^ k) w refl lt)

-- The sign bit in front of a field.
with_sign : ℕ → ℕ → ℕ → ℕ
with_sign sign w field = bit_or (if sign == 0 then 0 else u64 ((2 ^ 64 - 1) * 2 ^ w)) field

with_sign-clear : (w field : ℕ) → with_sign 0 w field ≡ field
unfolding with_sign
with_sign-clear w field = bit_or-zero_left field

pred-mul : (n y : ℕ) → 0 < n → (n - 1) * y + y ≡ n * y
pred-mul zero y pos = absurd (omega arith)
pred-mul (suc n) y pos = let e : suc n - 1 ≡ n = omega arith in rw e (omega arith)

with_sign-set :
    (w field : ℕ) → w < 33 → field < 2 ^ w → with_sign 1 w field ≡ field + 2 ^ 64 - 2 ^ w
unfolding with_sign
with_sign-set w field lt fits =
    let there : 64 - w + w ≡ 64 = omega arith in
    let power : 2 ^ 64 ≡ 2 ^ (64 - w) * 2 ^ w =
      ap (λ (t : ℕ). 2 ^ t) (sym there) ∙ pow-add 2 (64 - w) w in
    ap (λ (t : ℕ). bit_or t field) (ones_above w lt)
    ∙ bit_or_disjoint w (2 ^ (64 - w) - 1) field fits
    ∙ omega (arith, power, pred-mul (2 ^ (64 - w)) (2 ^ w) (one-le-pow (64 - w) 2 (omega arith)))

-- The field from bit `l` to bit `m`, with its highest bit as the sign, in 64 bits of two's
-- complement.
pub sign_extend_bits-value :
    (opcode l m : ℕ)
    → l ≤ m
    → m < 32
    → sign_extend_bits opcode l m ≡ (
        let field = opcode / 2 ^ l % 2 ^ (m - l + 1) in
        if ltb field (2 ^ (m - l)) then field else field + 2 ^ 64 - 2 ^ (m - l + 1))
unfolding sign_extend_bits with_sign bits
sign_extend_bits-value opcode l m le lt =
    let q = opcode / 2 ^ l in
    let k = m - l in
    let field = q % 2 ^ suc k in
    let whole : k + 1 ≡ suc k = omega arith in
    let there : l + k ≡ m = omega arith in
    let value : bits opcode l m ≡ field = rw (sym whole) (bits-value opcode l m le lt) in
    let powers : 2 ^ l * 2 ^ k ≡ 2 ^ m = sym (pow-add 2 l k) ∙ ap (λ (t : ℕ). 2 ^ t) there in
    let sign : opcode / 2 ^ m ≡ q / 2 ^ k =
      sym (div-div-eq-div-mul opcode (2 ^ l) (2 ^ k) ∙ ap (λ (t : ℕ). opcode / t) powers) in
    let parity : bit_and (opcode / 2 ^ m) 1 ≡ q / 2 ^ k % 2 =
      and_ones 1 (opcode / 2 ^ m) ∙ ap (λ (t : ℕ). t % 2) sign in
    let target : ℕ → ℕ =
      λ w. if ltb (q % 2 ^ w) (2 ^ k) then q % 2 ^ w else q % 2 ^ w + 2 ^ 64 - 2 ^ w in
    let cases : with_sign (bit_and (opcode / 2 ^ m) 1) (suc k) (bits opcode l m) ≡ target (suc k) =
      elim (dec_lt field (2 ^ k)) [
        | yes small ↦
            ap₂ (λ s f. with_sign s (suc k) f) (parity ∙ top_clear k q small) value
            ∙ with_sign-clear (suc k) field
            ∙ sym (
                ap (λ b. if b then field else field + 2 ^ 64 - 2 ^ suc k)
                  (lt→ltb field (2 ^ k) small))
        | no large ↦
            ap₂ (λ s f. with_sign s (suc k) f) (parity ∙ top_set k q (omega arith)) value
            ∙ with_sign-set (suc k) field (omega arith)
                (mod-lt q (one-le-pow (suc k) 2 (omega arith)))
            ∙ sym (
                ap (λ b. if b then field else field + 2 ^ 64 - 2 ^ suc k)
                  (le→ltb field (2 ^ k) (omega arith)))
      ] in
    ap (λ w. with_sign (bit_and (opcode / 2 ^ m) 1) w (bits opcode l m)) whole
    ∙ cases
    ∙ ap target (sym whole)
