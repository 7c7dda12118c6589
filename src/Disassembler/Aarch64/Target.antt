-- ===== src/Disassembler/Aarch64/Target.antt =====
-- The targets of branches to an immediate.
use reil.Base.{
  ℕ, ◌+◌, ◌-◌, ◌*◌, ◌/◌, ◌%◌, ◌^◌, ◌≤◌, ◌<◌, ◌≡◌, ap, ◌∙◌, ltb, if◌then◌else◌, u64, arith,
}
use reil.Aarch64.Decoder.Types.{imm}
use reil.Aarch64.Decoder.Bits.{sign_extend_bits}
use reil.Aarch64.Decoder.Fields.{and_ones}
use reil.Aarch64.Decoder.Sign.{sign_extend_bits-value}
use reil.Disassembler.Aarch64.{pc_relative_address}

-- The two cases of `PcRelativeAddress` agree on an offset of 64 bits.
whole_offset :
    (address value : ℕ)
    → value < 2 ^ 64
    → pc_relative_address address (record { size = 64; value = value }) ≡ u64 (address + value)
unfolding pc_relative_address
whole_offset address value lt = ground arith

scaled : (address n : ℕ) → u64 (address + u64 (u64 (n * 2 ^ 2))) ≡ u64 (address + 4 * n)
scaled address n = omega arith

-- Where the field from bit `l` to bit `m` of an opcode, with `l` up to `m` and `m` below 32, is the
-- offset of a branch in instructions, the branch goes to the address that is four times the field,
-- read with its highest bit as the sign, away from it, in 64 bits.
pub pc_relative_address-target :
    (address opcode l m : ℕ)
    → l ≤ m
    → m < 32
    → pc_relative_address address (imm 64 (u64 (sign_extend_bits opcode l m * 2 ^ 2))) ≡ (
        let field = opcode / 2 ^ l % 2 ^ (m - l + 1) in
        u64 (
          address
          + 4 * (if ltb field (2 ^ (m - l)) then field else field + 2 ^ 64 - 2 ^ (m - l + 1))))
unfolding imm
pc_relative_address-target address opcode l m le lt =
    let n = u64 (sign_extend_bits opcode l m * 2 ^ 2) in
    ap (λ (v : ℕ). pc_relative_address address (record { size = 64; value = v })) (and_ones 64 n)
    ∙ whole_offset address (n % 2 ^ 64) (omega arith)
    ∙ scaled address (sign_extend_bits opcode l m)
    ∙ ap (λ (v : ℕ). u64 (address + 4 * v)) (sign_extend_bits-value opcode l m le lt)
