-- ===== src/Aarch64/Decoder/Exclusive.antt =====
-- reil/aarch64/decoder.cpp: `DecodeLoadStoreExclusive`.
use reil.Base.{ℕ, ◌*◌, ◌^◌, List, [], ◌∷◌, ltb, if◌then◌else◌, switch, bit_or}
use reil.Aarch64.Decoder.Types.{Opcode, imm, Operand, Instruction, insn, at_offset, no_shift}
use reil.Aarch64.Decoder.Bits.{bits, bit, x, x_or_sp}

-- `8 << bits(opcode, 30, 31)`
abbrev access_size : ℕ → ℕ
access_size opcode = 8 * 2 ^ bits opcode 30 31

-- The kinds of exclusive access, by the operands that they take.
pub data ExclusiveKind : Type 0 where
  store_exclusive store_exclusive_pair load_pair swap other : ExclusiveKind

-- The opcode and the kind, where `CASP*` doubles the size.
abbrev pub exclusive_opcode : ℕ → ℕ → Opcode × (ExclusiveKind × ℕ)
exclusive_opcode n size =
    let single : Opcode → ExclusiveKind → Opcode × (ExclusiveKind × ℕ) =
      λ op kind. (op, (kind, size)) in
    let pair : Opcode → Opcode → ExclusiveKind → Opcode × (ExclusiveKind × ℕ) = λ small large kind.
      if ltb size 32 then (small, (ExclusiveKind.other, size * 2)) else (large, (kind, size)) in
    switch n
      ((0b0000, single Opcode.stxr ExclusiveKind.store_exclusive)
        ∷ (0b0001, single Opcode.stlxr ExclusiveKind.store_exclusive)
        ∷ (0b0010, pair Opcode.casp Opcode.stxp ExclusiveKind.store_exclusive_pair)
        ∷ (0b0011, pair Opcode.caspl Opcode.stlxp ExclusiveKind.store_exclusive_pair)
        ∷ (0b0100, single Opcode.ldxr ExclusiveKind.other)
        ∷ (0b0101, single Opcode.ldaxr ExclusiveKind.other)
        ∷ (0b0110, pair Opcode.caspa Opcode.ldxp ExclusiveKind.load_pair)
        ∷ (0b0111, pair Opcode.caspal Opcode.ldaxp ExclusiveKind.load_pair)
        ∷ (0b1000, single Opcode.stllr ExclusiveKind.other)
        ∷ (0b1001, single Opcode.stlr ExclusiveKind.other)
        ∷ (0b1010, single Opcode.cas ExclusiveKind.swap)
        ∷ (0b1011, single Opcode.casl ExclusiveKind.swap)
        ∷ (0b1100, single Opcode.ldlar ExclusiveKind.other)
        ∷ (0b1101, single Opcode.ldar ExclusiveKind.other)
        ∷ (0b1110, single Opcode.casa ExclusiveKind.swap)
        ∷ [])
      (single Opcode.casal ExclusiveKind.swap)

-- The operands of a kind: the status or the compared register, the register, and the second one.
abbrev pub exclusive_operands : ExclusiveKind → ℕ → ℕ → Operand → List Operand
exclusive_operands ExclusiveKind.store_exclusive opcode size address =
    Operand.register (x 32 opcode 16 20) ∷ Operand.register (x size opcode 0 4) ∷ address ∷ []
exclusive_operands ExclusiveKind.store_exclusive_pair opcode size address =
    Operand.register (x 32 opcode 16 20)
    ∷ Operand.register (x size opcode 0 4)
    ∷ Operand.register (x size opcode 10 14)
    ∷ address
    ∷ []
exclusive_operands ExclusiveKind.load_pair opcode size address =
    Operand.register (x size opcode 0 4) ∷ Operand.register (x size opcode 10 14) ∷ address ∷ []
exclusive_operands ExclusiveKind.swap opcode size address =
    Operand.register (x size opcode 16 20) ∷ Operand.register (x size opcode 0 4) ∷ address ∷ []
exclusive_operands ExclusiveKind.other opcode size address =
    Operand.register (x size opcode 0 4) ∷ address ∷ []

-- A pair is accessed with twice the size.
abbrev exclusive_size : ExclusiveKind → ℕ → ℕ
exclusive_size ExclusiveKind.store_exclusive_pair size = size * 2
exclusive_size ExclusiveKind.load_pair size = size * 2
exclusive_size ExclusiveKind.store_exclusive size = size
exclusive_size ExclusiveKind.swap size = size
exclusive_size ExclusiveKind.other size = size

unfoldable pub load_store_exclusive : ℕ → Instruction
load_store_exclusive opcode =
    let chosen =
      exclusive_opcode (bit_or (bits opcode 21 23 * 2 ^ 1) (bit opcode 15)) (access_size opcode) in
    let kind = chosen.1.0 in
    let size = chosen.1.1 in
    let address =
      at_offset (x_or_sp 64 opcode 5 9) (imm 64 0) no_shift (exclusive_size kind size) in
    insn chosen.0 (exclusive_operands kind opcode size (Operand.immediate_offset address))
