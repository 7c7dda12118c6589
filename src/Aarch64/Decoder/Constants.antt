-- ===== src/Aarch64/Decoder/Constants.antt =====
-- reil/aarch64/decoder.cpp: data processing with immediates.
use reil.Base.{
  ℕ, ◌*◌, ◌^◌, [], ◌∷◌, ◌==◌, leb, not, if◌then◌else◌, some, none, switch, u64, bit_and, bit_or,
}
use reil.Aarch64.Decoder.Types.{
  Opcode, imm, ShiftType, Shift, Operand, Instruction, insn, unallocated, no_shift,
}
use reil.Aarch64.Decoder.Bits.{
  bits, bit, is_set, sign_extend_bits, x, x_or_sp, operand_size, allocated,
}
use reil.Aarch64.Decoder.Masks.{decode_bit_masks}

abbrev lsl_12 : Shift
lsl_12 = record { type = ShiftType.lsl; count = 12 }

unfoldable pub pc_relative_addressing : ℕ → Instruction
pc_relative_addressing opcode =
    let page = is_set opcode 31 in
    insn (if page then Opcode.adrp else Opcode.adr) (
      Operand.register (x 64 opcode 0 4)
      ∷ Operand.immediate
          (imm 64 (bit_or (u64 (sign_extend_bits opcode 5 23 * 2 ^ 2)) (bits opcode 29 30)))
      ∷ Operand.shift (if page then lsl_12 else no_shift)
      ∷ [])

unfoldable pub add_subtract_immediate : ℕ → Instruction
add_subtract_immediate opcode =
    let size = operand_size opcode in
    let set_flags = is_set opcode 29 in
    record (insn (if is_set opcode 30 then Opcode.sub_immediate else Opcode.add_immediate) (
      Operand.register (if set_flags then x size opcode 0 4 else x_or_sp size opcode 0 4)
      ∷ Operand.register (x_or_sp size opcode 5 9)
      ∷ Operand.immediate (imm size (bits opcode 10 21))
      ∷ Operand.shift (if bits opcode 22 23 == 1 then lsl_12 else no_shift)
      ∷ [])) { set_flags = set_flags }

unfoldable pub logical_immediate : ℕ → Instruction
logical_immediate opcode =
    let size = operand_size opcode in
    let set_flags = bits opcode 29 30 == 0b11 in
    let value = (decode_bit_masks (bit opcode 22) (bits opcode 10 15) (bits opcode 16 21)).0 in
    record (insn
      (switch (bits opcode 29 30)
        ((0b00, Opcode.and_immediate)
          ∷ (0b01, Opcode.orr_immediate)
          ∷ (0b10, Opcode.eor_immediate)
          ∷ [])
        Opcode.and_immediate)
      (Operand.register (if set_flags then x size opcode 0 4 else x_or_sp size opcode 0 4)
        ∷ Operand.register (x size opcode 5 9)
        ∷ Operand.immediate (imm size value)
        ∷ [])) { set_flags = set_flags }

unfoldable pub move_wide_immediate : ℕ → Instruction
move_wide_immediate opcode =
    let size = operand_size opcode in
    if leb size (bits opcode 21 22 * 2 ^ 4)
    then unallocated
    else allocated
        (switch (bits opcode 29 30)
          ((0b00, some Opcode.movn) ∷ (0b10, some Opcode.movz) ∷ (0b11, some Opcode.movk) ∷ [])
          none)
        (λ op. insn op (
          Operand.register (x size opcode 0 4)
          ∷ Operand.immediate (imm size (bits opcode 5 20))
          ∷ Operand.shift (record { type = ShiftType.lsl; count = bits opcode 21 22 * 2 ^ 4 })
          ∷ []))

unfoldable pub bitfield : ℕ → Instruction
bitfield opcode =
    let size = operand_size opcode in
    if not (bit opcode 22 == bit opcode 31)
    then unallocated
    else allocated
        (switch (bits opcode 29 30)
          ((0b00, some Opcode.sbfm) ∷ (0b01, some Opcode.bfm) ∷ (0b10, some Opcode.ubfm) ∷ []) none)
        (λ op. insn op (
          Operand.register (x size opcode 0 4)
          ∷ Operand.register (x size opcode 5 9)
          ∷ Operand.immediate (imm size (bits opcode 16 21))
          ∷ Operand.immediate (imm size (bits opcode 10 15))
          ∷ []))

unfoldable pub extract : ℕ → Instruction
extract opcode =
    let size = operand_size opcode in
    if not (bit opcode 22 == bit opcode 31)
    then unallocated
    else insn Opcode.extr (
        Operand.register (x size opcode 0 4)
        ∷ Operand.register (x size opcode 5 9)
        ∷ Operand.register (x size opcode 16 20)
        ∷ Operand.immediate (imm 8 (bits opcode 10 15))
        ∷ [])

unfoldable pub data_processing_immediate : ℕ → Instruction
data_processing_immediate opcode =
    let op0 = bits opcode 23 25 in
    if bit_and op0 0b110 == 0b000
    then pc_relative_addressing opcode
    else if bit_and op0 0b110 == 0b010
    then add_subtract_immediate opcode
    else if op0 == 0b100
    then logical_immediate opcode
    else if op0 == 0b101
    then move_wide_immediate opcode
    else if op0 == 0b110
    then bitfield opcode
    else if op0 == 0b111
    then extract opcode
    else unallocated
