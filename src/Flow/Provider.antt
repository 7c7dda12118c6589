-- ===== src/Flow/Provider.antt =====
-- flow_graph/instruction_provider.h and instruction_provider.cpp: the class `InstructionProvider`,
-- which keeps the translations of native instructions. Its virtual methods are parameters; they
-- alone use the translation flags.
pub mod Cache
mod Tests
use reil.Base.{
  ℕ, ◌+◌, ◌-◌, ◌%◌, ◌^◌, ◌==◌, ◌||◌, Bool, true, false, ltb, if◌then◌else◌, Option, some, none,
  List, [], ◌∷◌, length, get_elem?, zero, suc, u16, u64, Run, ok, fault, Fault, undefined,
  out_of_range, check_failed, aborted, check, ◌>>=◌, ◌>>◌,
}
use reil.Instruction.{Instruction, NativeInstruction}
use reil.MemoryImage.{MemoryImage, executable, read}
use reil.Disassembler.{is_aarch64}
use reil.Flow.Containers.{find, change}
use reil.Flow.Edge.{Node}

-- `cache` has the instruction of each weak pointer, dead or alive, and `recent`, which is
-- `cache__`, the address of the instruction that each slot keeps alive.
pub record InstructionProvider : Type 0 where
  pub memory_image : MemoryImage
  pub cache : List (ℕ × NativeInstruction)
  pub recent : List (Option ℕ)
  pub index : ℕ

-- The slot `i` of an array is changed.
unfoldable pub put_at : ℕ → Option ℕ → List (Option ℕ) → List (Option ℕ)
put_at i slot [] = []
put_at zero slot (s ∷ slots) = slot ∷ slots
put_at (suc i) slot (s ∷ slots) = s ∷ put_at i slot slots

-- A slot keeps the address' instruction alive.
unfoldable pub kept : ℕ → List (Option ℕ) → Bool
kept address [] = false
kept address (none ∷ slots) = kept address slots
kept address (some a ∷ slots) = if a == address then true else kept address slots

-- `lock()` of the weak pointer for the address, where `others` tells whether a pointer outside
-- of the provider keeps the address' instruction alive.
unfoldable pub locked : (ℕ → Bool) → InstructionProvider → ℕ → Option NativeInstruction
locked others p address = elim (find address p.cache) [
  | none ↦ none
  | some ni ↦ if kept address p.recent || others address then some ni else none
]

-- The virtual method `NextNativeInstruction`, on an address and the bytes from it on.
module _ (next : ℕ → List ℕ → ℕ) where
  unfoldable pub next_native_instruction : MemoryImage → ℕ → ℕ
  next_native_instruction image address =
      if executable image address 0 then next address (read image address) else 0

-- The virtual method `NativeInstruction`.
module _ (translate : ℕ → List ℕ → NativeInstruction) where
  -- The instruction is translated and kept; the `int` that counts the slots overflows in the end.
  unfoldable pub translated :
      InstructionProvider → ℕ → Run (Option NativeInstruction × InstructionProvider)
  translated p address =
      let ni = translate address (read p.memory_image address) in
      if p.index == 2 ^ 31 - 1
      then fault undefined
      else ok (
        some ni,
        record p {
          cache = change address ni (λ _. ni) p.cache;
          recent = put_at (p.index % 0x100) (some address) p.recent;
          index = p.index + 1;
        },
      )

  -- The public method `NativeInstruction`; `none` is a null pointer.
  unfoldable pub native_instruction :
      (ℕ → Bool) → InstructionProvider → ℕ → Run (Option NativeInstruction × InstructionProvider)
  native_instruction others p address = elim (locked others p address) [
    | some ni ↦ ok (some ni, p)
    | none ↦ if executable p.memory_image address 0 then translated p address else ok (none, p)
  ]

  unfoldable pub instruction :
      (ℕ → Bool) → InstructionProvider → Node → Run (Instruction × InstructionProvider)
  instruction others p node = native_instruction others p node.address >>= λ r. elim r.0 [
    | none ↦ fault undefined
    | some ni ↦ elim (get_elem? ni.reil node.offset) [
      | none ↦ fault check_failed
      | some ri ↦ ok (ri, r.1)
    ]
  ]

  -- A null pointer is dereferenced where there is no instruction.
  unfoldable pub next_instruction :
      (ℕ → List ℕ → ℕ) → (ℕ → Bool) → InstructionProvider → Node → Run (Node × InstructionProvider)
  next_instruction next others p node = native_instruction others p node.address >>= λ r. elim r.0 [
    | none ↦ fault undefined
    | some ni ↦
        if ltb (node.offset + 1) (length ni.reil)
        then ok (record { address = node.address; offset = u16 (node.offset + 1) }, r.1)
        else ok (
          record { address = next_native_instruction next p.memory_image node.address; offset = 0 },
          r.1,
        )
  ]

-- `AArch64InstructionProvider::NextNativeInstruction`
unfoldable pub next_aarch64 : ℕ → List ℕ → ℕ
next_aarch64 address bytes = u64 (address + 4)

-- The array has 256 slots, with null pointers at first.
abbrev slots : ℕ → List (Option ℕ)
slots zero = []
slots (suc n) = none ∷ slots n

-- `InstructionProvider::Create`
unfoldable pub create : MemoryImage → Run InstructionProvider
create image =
    check (is_aarch64 image) aborted
    >> ok (record { memory_image = image; cache = []; recent = slots 0x100; index = 0 })
