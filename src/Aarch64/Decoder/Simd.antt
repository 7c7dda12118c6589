-- ===== src/Aarch64/Decoder/Simd.antt =====
-- reil/aarch64/decoder.cpp: loads and stores of SIMD registers.
use reil.Base.{ℕ, ◌*◌, ◌^◌, [], ◌∷◌, ◌==◌, if◌then◌else◌, u8, bit_or}
use reil.Aarch64.Decoder.Types.{Opcode, Operand, Instruction, insn, unallocated}
use reil.Aarch64.Decoder.Bits.{bits, bit, is_set, v, allocated}
use reil.Aarch64.Decoder.Address.{
  pair_address, literal_address, unscaled_address, unsigned_address, offset_extension,
  register_address,
}

-- `8 << ((bit(opcode, 23) << 2) | bits(opcode, 30, 31))`, in a `uint8_t`
abbrev vector_size : ℕ → ℕ
vector_size opcode = u8 (8 * 2 ^ bit_or (bit opcode 23 * 2 ^ 2) (bits opcode 30 31))

unfoldable pub simd_load_literal : ℕ → Instruction
simd_load_literal opcode =
    let opc = bits opcode 30 31 in
    let size = u8 (32 * 2 ^ opc) in
    if opc == 0b11
    then unallocated
    else insn Opcode.simd_ldr_literal (
        Operand.register (v size opcode 0 4)
        ∷ Operand.immediate_offset (literal_address opcode size)
        ∷ [])

unfoldable pub simd_load_store_pair : ℕ → Instruction
simd_load_store_pair opcode =
    let opc = bits opcode 30 31 in
    let size = u8 (32 * 2 ^ opc) in
    let non_temporal = bits opcode 23 24 == 0b00 in
    if opc == 0b11
    then unallocated
    else insn
        (if is_set opcode 22
          then (if non_temporal then Opcode.simd_ldnp else Opcode.simd_ldp)
          else (if non_temporal then Opcode.simd_stnp else Opcode.simd_stp))
        (Operand.register (v size opcode 0 4)
          ∷ Operand.register (v size opcode 10 14)
          ∷ Operand.immediate_offset (pair_address opcode size)
          ∷ [])

-- The case for unprivileged instructions looks for opcodes that are not those of SIMD, and so
-- changes nothing.
unfoldable pub simd_load_store_unscaled_immediate : ℕ → Instruction
simd_load_store_unscaled_immediate opcode =
    let size = vector_size opcode in
    let unscaled = bits opcode 10 11 == 0b00 in
    insn
      (if is_set opcode 22
        then (if unscaled then Opcode.simd_ldur else Opcode.simd_ldr)
        else (if unscaled then Opcode.simd_stur else Opcode.simd_str))
      (Operand.register (v size opcode 0 4)
        ∷ Operand.immediate_offset (unscaled_address opcode size)
        ∷ [])

abbrev simd_opcode : ℕ → Opcode
simd_opcode opcode = if is_set opcode 22 then Opcode.simd_ldr else Opcode.simd_str

unfoldable pub simd_load_store_register_offset : ℕ → Instruction
simd_load_store_register_offset opcode =
    let size = vector_size opcode in
    allocated (offset_extension (bits opcode 13 15)) (λ type. insn (simd_opcode opcode) (
      Operand.register (v size opcode 0 4)
      ∷ Operand.register_offset (register_address opcode size type)
      ∷ []))

unfoldable pub simd_load_store_unsigned_immediate : ℕ → Instruction
simd_load_store_unsigned_immediate opcode =
    let size = vector_size opcode in
    insn (simd_opcode opcode) (
      Operand.register (v size opcode 0 4)
      ∷ Operand.immediate_offset (unsigned_address opcode size)
      ∷ [])
