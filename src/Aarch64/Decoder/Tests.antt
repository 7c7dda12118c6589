-- ===== src/Aarch64/Decoder/Tests.antt =====
-- The decoder on some opcodes.
use reil.Base.{◌+◌, ◌-◌, ◌/◌, ◌%◌, ◌^◌, ◌≡◌, refl, [], ◌∷◌, true, arith, ltb, if◌then◌else◌}
use reil.Aarch64.Decoder.Types.{Opcode, imm, Operand, at_offset, no_shift, insn}
use reil.Aarch64.Decoder.Bits.{bits, sign_extend_bits}
use reil.Aarch64.Decoder.Fields.{bits-value}
use reil.Aarch64.Decoder.Sign.{sign_extend_bits-value}
use reil.Aarch64.Decoder.Masks.{decode_bit_masks}
use reil.Aarch64.Decoder.Masks.Reference.{
  rotated_ones, unrotated_ones, decode_bit_masks-rotated_ones,
}
use reil.Aarch64.Decoder.Valid.{IsValid}
use reil.Aarch64.Decoder.Valid.Decoded.{decode-IsValid}
use reil.Aarch64.Decoder.{classified, decode}

-- `ret`
decode_ret :
    decode 0 0xd65f03c0 ≡ insn Opcode.ret (Operand.register (record { size = 64; name = 30 }) ∷ [])
unfolding decode reil.Aarch64.Decoder.Bits.bits
    reil.Aarch64.Decoder.Branches.branch_exception_generating_system
    reil.Aarch64.Decoder.Branches.branch_register reil.Aarch64.Decoder.Bits.x
decode_ret = refl

-- `and x0, x0, #0xff`
decode_and :
    decode 4 0x92401c00
    ≡ record (insn Opcode.and_immediate (
        Operand.register (record { size = 64; name = 0 })
        ∷ Operand.register (record { size = 64; name = 0 })
        ∷ Operand.immediate (record { size = 64; value = 255 })
        ∷ [])) { address = 4 }
unfolding decode bits reil.Aarch64.Decoder.Constants.data_processing_immediate
    reil.Aarch64.Decoder.Constants.logical_immediate reil.Aarch64.Decoder.Bits.x_or_sp
    reil.Aarch64.Decoder.Bits.x imm reil.Aarch64.Decoder.Bits.bit decode_bit_masks
decode_and = refl

-- `stp x29, x30, [sp, #-16]!`
decode_stp :
    decode 8 0xa9bf7bfd
    ≡ record (insn Opcode.stp (
        Operand.register (record { size = 64; name = 29 })
        ∷ Operand.register (record { size = 64; name = 30 })
        ∷ Operand.immediate_offset
            (record (at_offset
              (record { size = 64; name = 32 })
              (record { size = 64; value = 2 ^ 64 - 16 })
              no_shift
              128) { writeback = true })
        ∷ [])) { address = 8 }
unfolding decode bits reil.Aarch64.Decoder.LoadStore.load_store reil.Aarch64.Decoder.Bits.bit
    reil.Aarch64.Decoder.LoadStore.load_store_pair reil.Aarch64.Decoder.Bits.x
    reil.Aarch64.Decoder.Bits.x_or_sp imm sign_extend_bits
decode_stp = refl

decode-IsValid_example : IsValid (decode 8 0xa9bf7bfd)
decode-IsValid_example = decode-IsValid 8 0xa9bf7bfd

decode_bit_masks-rotated_ones_example :
    decode_bit_masks 0 0b111001 3 ≡ (rotated_ones 0 0b111001 3, unrotated_ones 0 0b111001 3)
decode_bit_masks-rotated_ones_example =
    decode_bit_masks-rotated_ones 0 0b111001 3 (omega arith) (omega arith) (omega arith)

bits-value_example : bits 0xd65f03c0 21 24 ≡ 0xd65f03c0 / 2 ^ 21 % 2 ^ (24 - 21 + 1)
bits-value_example = bits-value 0xd65f03c0 21 24 (omega arith) (omega arith)

sign_extend_bits-value_example : sign_extend_bits 0xa9bf7bfd 15 21 ≡ (
    let field = 0xa9bf7bfd / 2 ^ 15 % 2 ^ (21 - 15 + 1) in
    if ltb field (2 ^ (21 - 15)) then field else field + 2 ^ 64 - 2 ^ (21 - 15 + 1))
sign_extend_bits-value_example = sign_extend_bits-value 0xa9bf7bfd 15 21 (omega arith) (omega arith)
