-- ===== src/Aarch64/Decoder/LoadStore.antt =====
-- reil/aarch64/decoder.cpp: loads and stores.
use reil.Base.{ℕ, ◌*◌, ◌^◌, [], ◌∷◌, ◌==◌, ltb, not, ◌&&◌, if◌then◌else◌, switch, bit_and}
use reil.Aarch64.Decoder.Types.{Opcode, imm, Operand, Instruction, insn, unallocated}
use reil.Aarch64.Decoder.Bits.{bits, bit, is_set, x, operand_size, allocated}
use reil.Aarch64.Decoder.Address.{
  pair_address, literal_address, unscaled_address, unsigned_address, offset_extension,
  register_address,
}
use reil.Aarch64.Decoder.Exclusive.{load_store_exclusive}
use reil.Aarch64.Decoder.Simd.{
  simd_load_literal, simd_load_store_pair, simd_load_store_unscaled_immediate,
  simd_load_store_register_offset, simd_load_store_unsigned_immediate,
}

-- `8 << bits(opcode, 30, 31)`
abbrev access_size : ℕ → ℕ
access_size opcode = 8 * 2 ^ bits opcode 30 31

unfoldable pub load_literal : ℕ → Instruction
load_literal opcode =
    let opc = bits opcode 30 31 in
    let operand : ℕ → Operand = λ size. Operand.register (x size opcode 0 4) in
    let from : Opcode → ℕ → Operand → Instruction = λ op size target.
      insn op (target ∷ Operand.immediate_offset (literal_address opcode size) ∷ []) in
    switch opc
      ((0b00, from Opcode.ldr_literal 32 (operand 32))
        ∷ (0b01, from Opcode.ldr_literal 64 (operand 64))
        ∷ (0b10, from Opcode.ldrs_literal 32 (operand 64))
        ∷ [])
      (from Opcode.prfm_literal 64 (Operand.immediate (imm 8 (bits opcode 0 4))))

unfoldable pub load_store_pair : ℕ → Instruction
load_store_pair opcode =
    let size = operand_size opcode in
    let opc = bits opcode 30 31 in
    let load = is_set opcode 22 in
    let non_temporal = bits opcode 23 24 == 0b00 in
    let signed = bit_and opc 0b01 == 0b01 in
    if opc == 0b11
    then unallocated
    else if signed && not load
    then unallocated
    else insn
        (if load
          then (if non_temporal then Opcode.ldnp else if signed then Opcode.ldpsw else Opcode.ldp)
          else (if non_temporal then Opcode.stnp else Opcode.stp))
        (Operand.register (x size opcode 0 4)
          ∷ Operand.register (x size opcode 10 14)
          ∷ Operand.immediate_offset (pair_address opcode size)
          ∷ [])

-- The opcode and the register, or the prefetch operation.
unfoldable pub load_store_opcode : ℕ → Opcode × Operand
load_store_opcode opcode =
    let size = access_size opcode in
    let whole = Operand.register (x (if ltb size 64 then 32 else 64) opcode 0 4) in
    switch (bits opcode 22 23)
      ((0b00, (Opcode.str, whole))
        ∷ (0b01, (Opcode.ldr, whole))
        ∷ (
          0b10,
          if size == 64
              then (Opcode.prfm, Operand.immediate (imm 8 (bits opcode 0 4)))
              else (Opcode.ldrs, Operand.register (x 64 opcode 0 4)),
        )
        ∷ [])
      (Opcode.ldrs, Operand.register (x 32 opcode 0 4))

-- The opcodes of unscaled and of unprivileged accesses.
abbrev pub unscaled_opcode : Opcode → Opcode
unscaled_opcode Opcode.str = Opcode.stur
unscaled_opcode Opcode.ldr = Opcode.ldur
unscaled_opcode Opcode.ldrs = Opcode.ldurs
unscaled_opcode op = op

abbrev pub unprivileged_opcode : Opcode → Opcode
unprivileged_opcode Opcode.str = Opcode.sttr
unprivileged_opcode Opcode.ldr = Opcode.ldtr
unprivileged_opcode Opcode.ldrs = Opcode.ldtrs
unprivileged_opcode op = op

unfoldable pub load_store_unscaled_immediate : ℕ → Instruction
load_store_unscaled_immediate opcode =
    let plain = load_store_opcode opcode in
    insn
      (switch (bits opcode 10 11)
        ((0b00, unscaled_opcode plain.0) ∷ (0b10, unprivileged_opcode plain.0) ∷ []) plain.0)
      (plain.1 ∷ Operand.immediate_offset (unscaled_address opcode (access_size opcode)) ∷ [])

unfoldable pub load_store_register_offset : ℕ → Instruction
load_store_register_offset opcode =
    let plain = load_store_opcode opcode in
    allocated (offset_extension (bits opcode 13 15)) (λ type.
      insn plain.0 (
        plain.1 ∷ Operand.register_offset (register_address opcode (access_size opcode) type) ∷ []))

unfoldable pub load_store_unsigned_immediate : ℕ → Instruction
load_store_unsigned_immediate opcode =
    let plain = load_store_opcode opcode in
    insn plain.0
      (plain.1 ∷ Operand.immediate_offset (unsigned_address opcode (access_size opcode)) ∷ [])

-- The three forms of `op1` 0b11: an unscaled, a register or an unsigned offset.
abbrev by_offset : ℕ → Instruction → Instruction → Instruction → Instruction
by_offset opcode unscaled by_register unsigned =
    let op4 = bits opcode 16 21 in
    if bit_and (bits opcode 23 24) 0b10 == 0b00
    then (if bit_and op4 0b100000 == 0b000000
        then unscaled
        else if bit_and op4 0b100000 == 0b100000 && bits opcode 10 11 == 0b10
        then by_register
        else unallocated)
    else unsigned

unfoldable pub load_store : ℕ → Instruction
load_store opcode =
    let op1 = bits opcode 28 29 in
    let low_op3 = bit_and (bits opcode 23 24) 0b10 == 0b00 in
    if bit opcode 26 == 0b1
    then (if op1 == 0b01 && low_op3
        then simd_load_literal opcode
        else if op1 == 0b10
        then simd_load_store_pair opcode
        else if op1 == 0b11
        then by_offset opcode (simd_load_store_unscaled_immediate opcode)
            (simd_load_store_register_offset opcode) (simd_load_store_unsigned_immediate opcode)
        else unallocated)
    else if op1 == 0b00 && low_op3
    then load_store_exclusive opcode
    else if op1 == 0b01 && low_op3
    then load_literal opcode
    else if op1 == 0b10
    then load_store_pair opcode
    else if op1 == 0b11
    then by_offset opcode (load_store_unscaled_immediate opcode) (load_store_register_offset opcode)
        (load_store_unsigned_immediate opcode)
    else unallocated
