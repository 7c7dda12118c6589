-- ===== src/Aarch64/Decoder/Registers.antt =====
-- reil/aarch64/decoder.cpp: data processing with registers.
use reil.Base.{
  ℕ, ◌*◌, ◌^◌, List, [], ◌∷◌, ◌++◌, ◌==◌, leb, ltb, not, ◌||◌, Bool, true, false, if◌then◌else◌,
  some, none, switch, bit_and, bit_or,
}
use reil.Aarch64.Decoder.Types.{
  Opcode, imm, name_sp, ShiftType, ExtendType, Operand, Instruction, insn, unallocated,
}
use reil.Aarch64.Decoder.Bits.{bits, bit, is_set, x, x_or_sp, operand_size, allocated}

-- The destination and the two sources of most instructions.
abbrev three_registers : ℕ → ℕ → List Operand
three_registers size opcode =
    Operand.register (x size opcode 0 4)
    ∷ Operand.register (x size opcode 5 9)
    ∷ Operand.register (x size opcode 16 20)
    ∷ []

unfoldable pub two_source : ℕ → Instruction
two_source opcode =
    let size = operand_size opcode in
    let pair : Opcode → Instruction = λ op. insn op (three_registers size opcode) in
    if is_set opcode 29
    then unallocated
    else switch (bits opcode 10 15)
        ((0b000010, pair Opcode.udiv)
          ∷ (0b000011, pair Opcode.sdiv)
          ∷ (0b001000, pair Opcode.lsl)
          ∷ (0b001001, pair Opcode.lsr)
          ∷ (0b001010, pair Opcode.asr)
          ∷ (0b001011, pair Opcode.ror)
          ∷ (
            0b001100,
            insn Opcode.pacga (
                Operand.register (x size opcode 0 4)
                ∷ Operand.register (x size opcode 5 9)
                ∷ Operand.register (x_or_sp size opcode 16 20)
                ∷ []),
          )
          ∷ (0b010000, pair Opcode.crc32b)
          ∷ (0b010001, pair Opcode.crc32h)
          ∷ (0b010010, pair Opcode.crc32w)
          ∷ (0b010011, pair Opcode.crc32x)
          ∷ (0b010100, pair Opcode.crc32cb)
          ∷ (0b010101, pair Opcode.crc32ch)
          ∷ (0b010110, pair Opcode.crc32cw)
          ∷ (0b010111, pair Opcode.crc32cx)
          ∷ [])
        unallocated

-- The pointer authentication instructions of `DecodeDataProcessingOneSource`.
abbrev authentication : ℕ → ℕ → Opcode
authentication opc kind = switch opc ((0b010000, Opcode.xpaci) ∷ (0b010001, Opcode.xpacd) ∷ []) (
    switch kind
      ((0b000, Opcode.pacia)
        ∷ (0b001, Opcode.pacib)
        ∷ (0b010, Opcode.pacda)
        ∷ (0b011, Opcode.pacdb)
        ∷ (0b100, Opcode.autia)
        ∷ (0b101, Opcode.autib)
        ∷ (0b110, Opcode.autda)
        ∷ [])
      Opcode.autdb)

unfoldable pub one_source : ℕ → Instruction
one_source opcode =
    let size = operand_size opcode in
    let opc = bits opcode 10 15 in
    let opc2 = bits opcode 16 20 in
    let rd = Operand.register (x size opcode 0 4) in
    if is_set opcode 29 || ltb 1 opc2
    then unallocated
    else if opc2 == 0
    then allocated
        (switch opc
          ((0b000000, some Opcode.rbit)
            ∷ (0b000001, some Opcode.rev16)
            ∷ (0b000010, some (if size == 64 then Opcode.rev32 else Opcode.rev))
            ∷ (0b000011, if size == 32 then none else some Opcode.rev)
            ∷ (0b000100, some Opcode.clz)
            ∷ (0b000101, some Opcode.cls)
            ∷ [])
          none)
        (λ op. insn op (rd ∷ Operand.register (x size opcode 5 9) ∷ []))
    else if not (size == 64)
    then unallocated
    else if not (bit_and opc 0b011000 == 0)
    then (if not (bits opcode 5 9 == 0b11111) || ltb 0b010001 opc
        then unallocated
        else insn (authentication opc (bit_and opc 0b000111))
            (rd ∷ Operand.register (x size opcode 5 9) ∷ []))
    else if ltb 0b010001 opc
    then unallocated
    else insn (authentication opc (bit_and opc 0b000111))
        (rd ∷ Operand.register (x_or_sp size opcode 5 9) ∷ [])

abbrev shift_type : ℕ → ShiftType
shift_type n =
    switch n ((0b00, ShiftType.lsl) ∷ (0b01, ShiftType.lsr) ∷ (0b10, ShiftType.asr) ∷ [])
      ShiftType.ror

unfoldable pub logical_shifted_register : ℕ → Instruction
logical_shifted_register opcode =
    let kind = bit_or (bits opcode 29 30 * 2 ^ 1) (bit opcode 21) in
    record (insn
      (switch kind
        ((0b000, Opcode.and_shifted_register)
          ∷ (0b001, Opcode.bic_shifted_register)
          ∷ (0b010, Opcode.orr_shifted_register)
          ∷ (0b011, Opcode.orn_shifted_register)
          ∷ (0b100, Opcode.eor_shifted_register)
          ∷ (0b101, Opcode.eon_shifted_register)
          ∷ (0b110, Opcode.and_shifted_register)
          ∷ [])
        Opcode.bic_shifted_register)
      (three_registers (operand_size opcode) opcode
        ++ Operand.shift
            (record { type = shift_type (bits opcode 22 23); count = bits opcode 10 15 })
          ∷ [])) { set_flags = leb 0b110 kind }

unfoldable pub add_subtract_shifted_register : ℕ → Instruction
add_subtract_shifted_register opcode =
    let size = operand_size opcode in
    if bits opcode 22 23 == 0b11
    then unallocated
    else if ltb size (bits opcode 10 15)
    then unallocated
    else record (insn
        (if is_set opcode 30 then Opcode.sub_shifted_register else Opcode.add_shifted_register)
        (three_registers size opcode
          ++ Operand.shift
              (record { type = shift_type (bits opcode 22 23); count = bits opcode 10 15 })
            ∷ [])) { set_flags = is_set opcode 29 }

-- The extension's type, and whether the register is read as 32 bits.
abbrev extension : ℕ → Bool → ExtendType × Bool
extension n on_sp =
    switch n
      ((0b000, (ExtendType.uxtb, true))
        ∷ (0b001, (ExtendType.uxth, true))
        ∷ (0b010, (if on_sp then ExtendType.lsl else ExtendType.uxtw, true))
        ∷ (0b011, (ExtendType.uxtx, false))
        ∷ (0b100, (ExtendType.sxtb, true))
        ∷ (0b101, (ExtendType.sxth, true))
        ∷ (0b110, (ExtendType.sxtw, true))
        ∷ [])
      (ExtendType.sxtx, false)

unfoldable pub add_subtract_extended_register : ℕ → Instruction
add_subtract_extended_register opcode =
    let size = operand_size opcode in
    let set_flags = is_set opcode 29 in
    let rd = if set_flags then x size opcode 0 4 else x_or_sp size opcode 0 4 in
    let rn = x_or_sp size opcode 5 9 in
    let rm = x size opcode 16 20 in
    let how = extension (bits opcode 13 15) (rd.name == name_sp || rn.name == name_sp) in
    if not (bits opcode 22 23 == 0) || ltb 0b100 (bits opcode 10 12)
    then unallocated
    else record (insn
        (if is_set opcode 30 then Opcode.sub_extended_register else Opcode.add_extended_register)
        (Operand.register rd
          ∷ Operand.register rn
          ∷ Operand.register (record rm { size = if how.1 then 32 else size })
          ∷ Operand.extend (record { type = how.0; count = bits opcode 10 12 })
          ∷ [])) { set_flags = set_flags }

unfoldable pub add_subtract_with_carry : ℕ → Instruction
add_subtract_with_carry opcode =
    if not (bits opcode 10 15 == 0)
    then unallocated
    else record (insn (if is_set opcode 30 then Opcode.sbc else Opcode.adc)
        (three_registers (operand_size opcode) opcode)) { set_flags = is_set opcode 29 }

unfoldable pub conditional_compare : ℕ → Instruction
conditional_compare opcode =
    let size = operand_size opcode in
    record (insn (if is_set opcode 30 then Opcode.ccmn else Opcode.ccmp) (
      Operand.register (x size opcode 5 9)
      ∷ (if is_set opcode 11
          then Operand.immediate (imm size (bits opcode 16 20))
          else Operand.register (x size opcode 16 20))
      ∷ Operand.immediate (imm 8 (bits opcode 0 3))
      ∷ [])) { cc = some (bits opcode 12 15) }

unfoldable pub conditional_select : ℕ → Instruction
conditional_select opcode =
    if is_set opcode 29
    then unallocated
    else allocated
        (switch (bit_or (bit opcode 30 * 2 ^ 2) (bits opcode 10 11))
          ((0b000, some Opcode.csel)
            ∷ (0b001, some Opcode.csinc)
            ∷ (0b100, some Opcode.csinv)
            ∷ (0b101, some Opcode.csneg)
            ∷ [])
          none)
        (λ op. record (insn op (three_registers (operand_size opcode) opcode)) {
          cc = some (bits opcode 12 15);
        })

unfoldable pub three_source : ℕ → Instruction
three_source opcode =
    let size = operand_size opcode in
    let whole : Opcode → Instruction =
      λ op. insn op (three_registers size opcode ++ Operand.register (x size opcode 10 14) ∷ []) in
    let long : Opcode → Instruction = λ op. insn op (
      Operand.register (x 64 opcode 0 4)
      ∷ Operand.register (x 32 opcode 5 9)
      ∷ Operand.register (x 32 opcode 16 20)
      ∷ Operand.register (x 64 opcode 10 14)
      ∷ []) in
    let high : Opcode → Instruction = λ op. if not (size == 64) then unallocated else whole op in
    if not (bits opcode 29 30 == 0)
    then unallocated
    else switch (bit_or (bits opcode 21 23 * 2 ^ 1) (bit opcode 15))
        ((0b0000, whole Opcode.madd)
          ∷ (0b0001, whole Opcode.msub)
          ∷ (0b0010, long Opcode.smaddl)
          ∷ (0b0011, long Opcode.smsubl)
          ∷ (0b0100, high Opcode.smulh)
          ∷ (0b0101, high Opcode.smulh)
          ∷ (0b1010, long Opcode.umaddl)
          ∷ (0b1011, long Opcode.umsubl)
          ∷ (0b1100, high Opcode.umulh)
          ∷ (0b1101, high Opcode.umulh)
          ∷ [])
        unallocated

unfoldable pub data_processing_register : ℕ → Instruction
data_processing_register opcode =
    let op2 = bits opcode 21 24 in
    if is_set opcode 28
    then (if op2 == 0b0000
        then add_subtract_with_carry opcode
        else if op2 == 0b0010
        then conditional_compare opcode
        else if op2 == 0b0100
        then conditional_select opcode
        else if op2 == 0b0110
        then (if not (is_set opcode 30) then two_source opcode else one_source opcode)
        else if bit_and op2 0b1000 == 0b1000
        then three_source opcode
        else unallocated)
    else if bit_and op2 0b1000 == 0b0000
    then logical_shifted_register opcode
    else if bit_and op2 0b1001 == 0b1000
    then add_subtract_shifted_register opcode
    else add_subtract_extended_register opcode
