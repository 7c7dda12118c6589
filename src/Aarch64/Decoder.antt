-- ===== src/Aarch64/Decoder.antt =====
-- reil/aarch64/decoder.cpp: `DecodeInstruction` and the classes of instructions.
pub mod Opcode
pub mod Shift
pub mod Extend
pub mod Types
pub mod Bits
pub mod Masks
pub mod Constants
pub mod System
pub mod Branches
pub mod Registers
pub mod Address
pub mod Simd
pub mod Exclusive
pub mod LoadStore
pub mod Fields
pub mod Sign
pub mod Valid
mod Tests
use reil.Base.{ℕ, ◌==◌, if◌then◌else◌, bit_and}
use Types.{Instruction, Immediate, unallocated}
use Bits.{bits}
use Masks.{decode_bit_masks}
use Constants.{data_processing_immediate}
use Branches.{branch_exception_generating_system}
use LoadStore.{load_store}
use Registers.{data_processing_register}

-- `DecodeBitMasks`
unfoldable pub bit_masks : ℕ → Immediate → Immediate → ℕ × ℕ
bit_masks size imms immr = decode_bit_masks (if size == 64 then 1 else 0) imms.value immr.value

-- The instruction of an opcode, without its address.
unfoldable pub classified : ℕ → Instruction
classified opcode =
    let op0 = bits opcode 25 28 in
    if bit_and op0 0b1110 == 0b1000
    then data_processing_immediate opcode
    else if bit_and op0 0b1110 == 0b1010
    then branch_exception_generating_system opcode
    else if bit_and op0 0b0101 == 0b0100
    then load_store opcode
    else if bit_and op0 0b0111 == 0b0101
    then data_processing_register opcode
    else unallocated

-- `DecodeInstruction`
unfoldable pub decode : ℕ → ℕ → Instruction
unfolding classified
decode address opcode = record (classified opcode) { address = address }
