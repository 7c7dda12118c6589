-- ===== src/Aarch64/Decoder/Branches.antt =====
-- reil/aarch64/decoder.cpp: branches and exceptions.
use reil.Base.{
  ℕ, ◌*◌, ◌^◌, [], ◌∷◌, ◌==◌, not, ◌&&◌, ◌||◌, if◌then◌else◌, Option, some, none, switch, u64,
  bit_and, bit_or,
}
use reil.Aarch64.Decoder.Types.{Opcode, imm, Operand, Instruction, insn, unallocated}
use reil.Aarch64.Decoder.Bits.{
  bits, bit, is_set, sign_extend_bits, x, x_or_sp, operand_size, allocated,
}
use reil.Aarch64.Decoder.System.{system}

-- A branch offset in the field from `lsb` to `msb`, in instructions of four bytes.
abbrev branch_offset : ℕ → ℕ → ℕ → Operand
branch_offset opcode lsb msb =
    Operand.immediate (imm 64 (u64 (sign_extend_bits opcode lsb msb * 2 ^ 2)))

unfoldable pub conditional_branch : ℕ → Instruction
conditional_branch opcode =
    if is_set opcode 24 || is_set opcode 4
    then unallocated
    else record (insn Opcode.b_cond (branch_offset opcode 5 23 ∷ [])) {
      cc = some (bits opcode 0 3);
    }

unfoldable pub exception_generation : ℕ → Instruction
exception_generation opcode =
    let opc = bits opcode 21 23 in
    let ll = bits opcode 0 1 in
    if not (bits opcode 2 4 == 0)
    then unallocated
    else allocated
        (switch opc
          ((
            0b000,
            switch ll
                ((0b01, some Opcode.svc) ∷ (0b10, some Opcode.hvc) ∷ (0b11, some Opcode.smc) ∷ [])
                none,
          )
            ∷ (0b001, switch ll ((0b00, some Opcode.brk) ∷ []) none)
            ∷ (0b010, switch ll ((0b00, some Opcode.hlt) ∷ []) none)
            ∷ (
              0b101,
              switch ll
                  ((0b01, some Opcode.dcps1)
                    ∷ (0b10, some Opcode.dcps2)
                    ∷ (0b11, some Opcode.dcps3)
                    ∷ [])
                  none,
            )
            ∷ [])
          none)
        (λ op. insn op (Operand.immediate (imm 32 (bits opcode 5 20)) ∷ []))

-- A branch to a register, with or without authentication: `op3` chooses between the opcodes.
abbrev authenticated : ℕ → ℕ → Opcode → Opcode → Opcode → Option Opcode
authenticated op3 op4 plain key_a key_b =
    if op3 == 0
    then some plain
    else if op3 == 0b000010 && op4 == 0b11111
    then some key_a
    else if op3 == 0b000011 && op4 == 0b11111
    then some key_b
    else none

-- `BRA*` and `BLRA*`, with a modifier.
abbrev with_modifier : ℕ → Opcode → Opcode → Option Opcode
with_modifier op3 key_a key_b =
    switch op3 ((0b000010, some key_a) ∷ (0b000011, some key_b) ∷ []) none

-- In the case of `BLR` the opcode chosen by `op3` is overwritten.
unfoldable pub branch_register : ℕ → Instruction
branch_register opcode =
    let opc = bits opcode 21 24 in
    let op3 = bits opcode 10 15 in
    let op4 = bits opcode 0 4 in
    let target = Operand.register (x 64 opcode 5 9) in
    let modifier = Operand.register (x_or_sp 64 opcode 0 4) in
    let plain : Option Opcode → Instruction = λ op. allocated op (λ o. insn o (target ∷ [])) in
    let modified : Option Opcode → Instruction =
      λ op. allocated op (λ o. insn o (target ∷ modifier ∷ [])) in
    if not (bits opcode 16 20 == 0b11111)
      || (not (op3 == 0b000000) && (not (op3 == 0b000010) && not (op3 == 0b000011)))
    then unallocated
    else switch opc
        ((0b0000, plain (authenticated op3 op4 Opcode.br Opcode.braaz Opcode.brabz))
          ∷ (0b0001, plain (authenticated op3 op4 Opcode.blr Opcode.blr Opcode.blr))
          ∷ (0b0010, plain (authenticated op3 op4 Opcode.ret Opcode.retaa Opcode.retab))
          ∷ (0b0100, plain (authenticated op3 op4 Opcode.eret Opcode.eretaa Opcode.eretab))
          ∷ (0b0101, plain (some Opcode.drps))
          ∷ (0b1000, modified (with_modifier op3 Opcode.braa Opcode.brab))
          ∷ (0b1001, modified (with_modifier op3 Opcode.blraa Opcode.blrab))
          ∷ [])
        unallocated

unfoldable pub branch_immediate : ℕ → Instruction
branch_immediate opcode =
    insn (if is_set opcode 31 then Opcode.bl else Opcode.b) (branch_offset opcode 0 25 ∷ [])

unfoldable pub compare_and_branch : ℕ → Instruction
compare_and_branch opcode =
    insn (if not (is_set opcode 24) then Opcode.cbz else Opcode.cbnz)
      (Operand.register (x (operand_size opcode) opcode 0 4) ∷ branch_offset opcode 5 23 ∷ [])

unfoldable pub test_and_branch : ℕ → Instruction
test_and_branch opcode = insn (if not (is_set opcode 24) then Opcode.tbz else Opcode.tbnz) (
    Operand.register (x (operand_size opcode) opcode 0 4)
    ∷ Operand.immediate (imm 64 (bit_or (bit opcode 31 * 2 ^ 5) (bits opcode 19 23)))
    ∷ branch_offset opcode 5 18
    ∷ [])

unfoldable pub branch_exception_generating_system : ℕ → Instruction
branch_exception_generating_system opcode =
    let op0 = bits opcode 29 31 in
    let op1 = bits opcode 22 25 in
    if op0 == 0b010
    then (if bit_and op1 0b1000 == 0b0000 then conditional_branch opcode else unallocated)
    else if op0 == 0b110
    then (if bit_and op1 0b1100 == 0b0000
        then exception_generation opcode
        else if op1 == 0b0100
        then system opcode
        else if bit_and op1 0b1000 == 0b1000
        then branch_register opcode
        else unallocated)
    else if bit_and op0 0b011 == 0b000
    then branch_immediate opcode
    else if bit_and op0 0b011 == 0b001
    then (if bit_and op1 0b1000 == 0b0000
        then compare_and_branch opcode
        else test_and_branch opcode)
    else unallocated
