-- ===== src/Aarch64/Decoder/System.antt =====
-- reil/aarch64/decoder.cpp: `DecodeSystem`.
use reil.Base.{ℕ, ◌*◌, ◌^◌, [], ◌∷◌, ◌==◌, not, ◌&&◌, if◌then◌else◌, some, none, switch, bit_or}
use reil.Aarch64.Decoder.Types.{
  Opcode, imm, SystemRegisterName, SystemRegister, Operand, Instruction, insn, unallocated,
}
use reil.Aarch64.Decoder.Bits.{bits, is_set, x, allocated}

abbrev immediate_8 : ℕ → Operand
immediate_8 n = Operand.immediate (imm 8 n)

-- The hints. `HINT` itself shows `crm`.
abbrev hint : ℕ → ℕ → Instruction
hint number crm =
    switch number
      ((0b0000000, insn Opcode.nop [])
        ∷ (0b0000001, insn Opcode.yield [])
        ∷ (0b0000010, insn Opcode.wfe [])
        ∷ (0b0000011, insn Opcode.wfi [])
        ∷ (0b0000100, insn Opcode.sev [])
        ∷ (0b0000101, insn Opcode.sevl [])
        ∷ (0b0000111, insn Opcode.xpaclri [])
        ∷ (0b0001000, insn Opcode.pacia1716 [])
        ∷ (0b0001010, insn Opcode.pacib1716 [])
        ∷ (0b0001100, insn Opcode.autia1716 [])
        ∷ (0b0001110, insn Opcode.autib1716 [])
        ∷ (0b0010000, insn Opcode.esb [])
        ∷ (0b0010001, insn Opcode.psb_csync [])
        ∷ (0b0011000, insn Opcode.paciaz [])
        ∷ (0b0011001, insn Opcode.paciasp [])
        ∷ (0b0011010, insn Opcode.pacibz [])
        ∷ (0b0011011, insn Opcode.pacibsp [])
        ∷ (0b0011100, insn Opcode.autiaz [])
        ∷ (0b0011101, insn Opcode.autiasp [])
        ∷ (0b0011110, insn Opcode.autibz [])
        ∷ (0b0011111, insn Opcode.autibsp [])
        ∷ [])
      (insn Opcode.hint (immediate_8 crm ∷ []))

-- `MSR (immediate)`
abbrev msr_immediate : ℕ → ℕ → Instruction
msr_immediate number crm =
    allocated
      (switch number
        ((0b000101, some SystemRegisterName.sp_sel)
          ∷ (0b011110, some SystemRegisterName.daif_set)
          ∷ (0b011111, some SystemRegisterName.daif_clr)
          ∷ (0b000011, some SystemRegisterName.uao)
          ∷ (0b000100, some SystemRegisterName.pan)
          ∷ [])
        none)
      (λ name.
        insn Opcode.msr
          (Operand.system_register (SystemRegister.named name) ∷ immediate_8 crm ∷ []))

abbrev barrier : ℕ → ℕ → Instruction
barrier op2 crm =
    switch op2
      ((0b010, insn Opcode.clrex [])
        ∷ (0b100, insn Opcode.dsb (immediate_8 crm ∷ []))
        ∷ (0b101, insn Opcode.dmb (immediate_8 crm ∷ []))
        ∷ (0b110, insn Opcode.isb (immediate_8 crm ∷ []))
        ∷ [])
      unallocated

-- The branch for `op0` 0 of an instruction that writes. Where no case applies, the instruction
-- stays as it was made, with the opcode `kUnallocated`.
abbrev system_control : ℕ → Instruction
system_control opcode =
    let op1 = bits opcode 16 18 in
    let op2 = bits opcode 5 7 in
    let crn = bits opcode 12 15 in
    let crm = bits opcode 8 11 in
    if crn == 0b0100 && bits opcode 0 4 == 0b11111
    then msr_immediate (bit_or (op1 * 2 ^ 3) op2) crm
    else if op1 == 0b011
    then (if crn == 0b0010
        then hint (bits opcode 5 11) crm
        else if crn == 0b0011
        then barrier op2 crm
        else unallocated)
    else unallocated

unfoldable pub system : ℕ → Instruction
system opcode =
    let op0 = bits opcode 19 20 in
    let op1 = bits opcode 16 18 in
    let op2 = bits opcode 5 7 in
    let crn = bits opcode 12 15 in
    let crm = bits opcode 8 11 in
    let rt = Operand.register (x 64 opcode 0 4) in
    let which = Operand.system_register (SystemRegister.unknown op0 op1 op2 crn crm) in
    if not (is_set opcode 21)
    then (if op0 == 0b00
        then system_control opcode
        else if op0 == 0b01
        then insn Opcode.sys
            (immediate_8 op1 ∷ immediate_8 crn ∷ immediate_8 crm ∷ immediate_8 op2 ∷ rt ∷ [])
        else insn Opcode.msr (which ∷ rt ∷ []))
    else if op0 == 0b01
    then insn Opcode.sysl
        (rt ∷ immediate_8 op1 ∷ immediate_8 crn ∷ immediate_8 crm ∷ immediate_8 op2 ∷ [])
    else if not (op0 == 0)
    then insn Opcode.mrs (rt ∷ which ∷ [])
    else unallocated
