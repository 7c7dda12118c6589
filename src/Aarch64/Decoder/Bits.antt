-- ===== src/Aarch64/Decoder/Bits.antt =====
-- reil/aarch64/decoder.cpp: the fields of an opcode and the registers that they name.
use reil.Base.{
  ℕ, ◌+◌, ◌-◌, ◌*◌, ◌/◌, ◌^◌, ◌==◌, if◌then◌else◌, Option, some, none, not, Bool, u32, u64, bit_and,
  bit_or,
}
use reil.Aarch64.Decoder.Types.{Register, name_sp, name_v0, Instruction, unallocated}

-- `0xffffffffu >> (32 - (msb - lsb + 1)) << lsb`
abbrev pub field_mask : ℕ → ℕ → ℕ
field_mask lsb msb = u32 ((2 ^ 32 - 1) / 2 ^ (32 - (msb - lsb + 1)) * 2 ^ lsb)

unfoldable pub bits : ℕ → ℕ → ℕ → ℕ
bits opcode lsb msb = bit_and opcode (field_mask lsb msb) / 2 ^ lsb

unfoldable pub bit : ℕ → ℕ → ℕ
bit opcode lsb = bit_and (opcode / 2 ^ lsb) 1

-- Whether a bit is set, where it stands as a condition.
abbrev pub is_set : ℕ → ℕ → Bool
is_set opcode lsb = not (bit opcode lsb == 0)

unfoldable pub sign_extend_bits : ℕ → ℕ → ℕ → ℕ
sign_extend_bits opcode lsb msb =
    bit_or
      (if bit_and (opcode / 2 ^ msb) 1 == 0 then 0 else u64 ((2 ^ 64 - 1) * 2 ^ (msb - lsb + 1)))
      (bit_and opcode (field_mask lsb msb) / 2 ^ lsb)

unfoldable pub v : ℕ → ℕ → ℕ → ℕ → Register
v size opcode lsb msb = record { size = size; name = name_v0 + bits opcode lsb msb }

unfoldable pub x : ℕ → ℕ → ℕ → ℕ → Register
x size opcode lsb msb = record { size = size; name = bits opcode lsb msb }

unfoldable pub x_or_sp : ℕ → ℕ → ℕ → ℕ → Register
x_or_sp size opcode lsb msb =
    if bits opcode lsb msb == 31
    then record { size = size; name = name_sp }
    else record { size = size; name = bits opcode lsb msb }

-- `32 << bit(opcode, 31)`
abbrev pub operand_size : ℕ → ℕ
operand_size opcode = 32 * 2 ^ bit opcode 31

-- The instruction for what a switch has chosen, or an unallocated encoding.
abbrev pub allocated {ℓ} : {A : Type ℓ} → Option A → (A → Instruction) → Instruction
allocated none build = unallocated
allocated (some a) build = build a
