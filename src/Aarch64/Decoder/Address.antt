-- ===== src/Aarch64/Decoder/Address.antt =====
-- reil/aarch64/decoder.cpp: the addresses of loads and stores.
use reil.Base.{
  ℕ, ◌+◌, ◌*◌, ◌^◌, [], ◌∷◌, ◌==◌, ◌||◌, if◌then◌else◌, Option, some, none, switch, u8, u32, u64,
}
use reil.Aarch64.Decoder.Types.{
  imm, name_pc, ExtendType, ImmediateOffset, RegisterOffset, at_offset, at_register, no_shift,
}
use reil.Aarch64.Decoder.Bits.{bits, bit, is_set, sign_extend_bits, x, x_or_sp}

-- The address of a pair, with the write-back that `op3` asks for.
abbrev pub pair_address : ℕ → ℕ → ImmediateOffset
pair_address opcode size =
    let op3 = bits opcode 23 24 in
    record (at_offset (x_or_sp 64 opcode 5 9)
      (imm 64 (u64 (sign_extend_bits opcode 15 21 * 2 ^ (2 + bit opcode 31)))) no_shift
      (u8 (size * 2))) { writeback = op3 == 0b01 || op3 == 0b11; post_index = op3 == 0b01 }

-- The address relative to the program counter.
abbrev pub literal_address : ℕ → ℕ → ImmediateOffset
literal_address opcode size =
    at_offset (record { size = 64; name = name_pc })
      (imm 64 (u64 (sign_extend_bits opcode 5 23 * 2 ^ 2))) no_shift size

-- The address with an unscaled offset, and the write-back that bits 10 and 11 ask for.
abbrev pub unscaled_address : ℕ → ℕ → ImmediateOffset
unscaled_address opcode size =
    let how = bits opcode 10 11 in
    record (at_offset (x_or_sp 64 opcode 5 9) (imm 64 (sign_extend_bits opcode 12 20)) no_shift
      size) { writeback = how == 0b01 || how == 0b11; post_index = how == 0b01 }

-- The address with an offset in elements.
abbrev pub unsigned_address : ℕ → ℕ → ImmediateOffset
unsigned_address opcode size =
    at_offset (x_or_sp 64 opcode 5 9) (imm 64 (u32 (bits opcode 10 21 * 2 ^ bits opcode 30 31)))
      no_shift size

-- The type of the extension of a register offset, where it is allocated.
abbrev pub offset_extension : ℕ → Option ExtendType
offset_extension n =
    switch n
      ((0b010, some ExtendType.uxtw)
        ∷ (0b011, some ExtendType.lsl)
        ∷ (0b110, some ExtendType.sxtw)
        ∷ (0b111, some ExtendType.sxtx)
        ∷ [])
      none

abbrev pub register_address : ℕ → ℕ → ExtendType → RegisterOffset
register_address opcode size type =
    at_register (x_or_sp 64 opcode 5 9) (x 64 opcode 16 20)
      (record { type = type; count = if is_set opcode 12 then bits opcode 30 31 else 0 }) size
