-- ===== src/Flow/Provider/Tests.antt =====
-- An instruction provider that has translated one instruction.
use reil.Base.{
  ℕ, ◌≡◌, refl, Bool, false, true, List, [], ◌∷◌, none, some, Run, ok, fault, undefined, ◌>>=◌,
  Returns, arith,
}
use reil.Instruction.{NativeInstruction}
use reil.Instruction.Build
use reil.MemoryImage.{Mapping, MemoryImage, executable, read}
use reil.Flow.Edge.{Node}
use reil.Flow.Provider.{
  InstructionProvider, create, native_instruction, next_instruction, next_aarch64,
}
use reil.Flow.Provider.Cache.{IsConsistent, shown, native_instruction-IsConsistent}

abbrev code : Mapping
code = record {
  address = 4096;
  bytes = 0x1f ∷ 0x20 ∷ 0x03 ∷ 0xd5 ∷ [];
  readable = true;
  writable = false;
  executable = true;
}

abbrev image : MemoryImage
image = record { mappings = code ∷ []; architecture_name = "aarch64" }

abbrev nops : ℕ → List ℕ → NativeInstruction
nops address bytes = record {
  address = address;
  size = 4;
  mnemonic = "nop";
  reil = Build.nop ∷ Build.nop ∷ [];
}

abbrev nobody : ℕ → Bool
nobody address = false

abbrev filled : InstructionProvider
filled = record {
  memory_image = image;
  cache = (4096, nops 4096 code.bytes) ∷ [];
  recent = some 4096 ∷ none ∷ [];
  index = 1;
}

abbrev node : ℕ → ℕ → Node
node address offset = record { address = address; offset = offset }

abbrev next : ℕ → ℕ → Run Node
next address offset =
    next_instruction nops next_aarch64 nobody filled (node address offset) >>= λ r. ok r.0

within : next 4096 0 ≡ ok (node 4096 1)
unfolding next_instruction native_instruction reil.Flow.Provider.locked reil.Flow.Provider.kept
    reil.Flow.Containers.find
within = refl

behind : next 4096 1 ≡ ok (node 4100 0)
unfolding next_instruction native_instruction reil.Flow.Provider.locked reil.Flow.Provider.kept
    reil.Flow.Containers.find reil.Flow.Provider.next_native_instruction next_aarch64 executable
    reil.MemoryImage.access_ok reil.MemoryImage.contains read
behind = refl

-- There is no check for the null pointer of an address that is not executable.
outside : next 8192 0 ≡ fault undefined
unfolding next_instruction native_instruction reil.Flow.Provider.locked reil.Flow.Provider.kept
    reil.Flow.Containers.find reil.Flow.Provider.next_native_instruction next_aarch64 executable
    reil.MemoryImage.access_ok reil.MemoryImage.contains read
outside = refl

filled-IsConsistent : IsConsistent nops filled
unfolding executable reil.MemoryImage.access_ok reil.MemoryImage.contains
filled-IsConsistent = ((refl, refl), tt)

native_instruction-IsConsistent_example :
    Returns
      (native_instruction nops nobody filled 4096)
      (λ r. (r.0 ≡ shown nops filled 4096) × IsConsistent nops r.1)
native_instruction-IsConsistent_example =
    native_instruction-IsConsistent nops nobody filled 4096 filled-IsConsistent (omega arith)
