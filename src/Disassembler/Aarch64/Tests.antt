-- ===== src/Disassembler/Aarch64/Tests.antt =====
-- The disassembler on three instructions.
use reil.Base.{◌+◌, ◌-◌, ◌*◌, ◌/◌, ◌%◌, ◌^◌, ltb, if◌then◌else◌, u64}
use reil.Aarch64.Decoder.Types.{imm}
use reil.Aarch64.Decoder.Bits.{sign_extend_bits}
use reil.Disassembler.Aarch64.{pc_relative_address}
use reil.Disassembler.Aarch64.Target.{pc_relative_address-target}
use reil.Base.{ℕ, ◌≡◌, true, false, Bool, ◌||◌, [], ◌∷◌, arith, Returns, ◌↔◌}
use reil.MemoryImage.{MemoryImage, Mapping}
use reil.Flow.Containers.{member}
use reil.Flow.Edge.{NativeEdge, NativeEdgeKind, native_edge_eq}
use reil.Flow.Native.{NativeFlowGraph, empty_graph, add_edge}
use reil.Flow.Native.Edges.{Represents, empty_graph-Represents, add_edge-Represents}
use reil.Disassembler.Aarch64.Addresses.{address_order}
use reil.Disassembler.Aarch64.{disassemble, disassemble_instruction, search_from}
use reil.Disassembler.Aarch64.Reach.{Flows, Reaches}
use reil.Disassembler.Aarch64.Reach.Edges.{EdgeOfAny, Extends}
use reil.Disassembler.Aarch64.Reach.Instruction.{IsNext, disassemble_instruction-IsNext}
use reil.Disassembler.Aarch64.Reach.Whole.{search_from-Reaches, disassemble-Extends}

-- `cbz x0, #8`, `ret` and `ret`, at 4096.
abbrev code : Mapping
code = record {
  address = 4096;
  bytes = 0x40 ∷ 0x00 ∷ 0x00 ∷ 0xb4 ∷ 0xc0 ∷ 0x03 ∷ 0x5f ∷ 0xd6 ∷ 0xc0 ∷ 0x03 ∷ 0x5f ∷ 0xd6 ∷ [];
  readable = true;
  writable = false;
  executable = true;
}

abbrev image : MemoryImage
image = record { mappings = code ∷ []; architecture_name = "aarch64" }

abbrev enter : NativeEdge
enter = record { source = 0; target = 4096; kind = NativeEdgeKind.call }

abbrev has_enter : NativeEdge → Bool
has_enter x = native_edge_eq enter x || false

abbrev entered : NativeFlowGraph
entered = add_edge empty_graph enter

entered-Represents : Represents has_enter entered
entered-Represents = add_edge-Represents (λ x. false) empty_graph empty_graph-Represents enter

disassemble_instruction-IsNext_example :
    Returns (disassemble_instruction image entered 4096) (λ r. IsNext (Flows image 4096) r.1)
disassemble_instruction-IsNext_example = disassemble_instruction-IsNext image entered 4096

search_from-Reaches_example :
    Returns
      (search_from 55340232221128654849 image (4096 ∷ []) [] entered)
      (λ s. (a : ℕ) → (member a s.visited ≡ true) ↔ Reaches image 4096 a)
search_from-Reaches_example =
    search_from-Reaches image has_enter entered 4096 entered-Represents (omega arith)

disassemble-Extends_example :
    Returns
      (disassemble image entered 4096)
      (Extends has_enter (EdgeOfAny image (Reaches image 4096)))
disassemble-Extends_example =
    disassemble-Extends image has_enter entered 4096 entered-Represents (omega arith)

-- `b #-4`
pc_relative_address-target_example :
    pc_relative_address 4096 (imm 64 (u64 (sign_extend_bits 0x17ffffff 0 25 * 2 ^ 2))) ≡ (
      let field = 0x17ffffff / 2 ^ 0 % 2 ^ (25 - 0 + 1) in
      u64 (
        4096 + 4 * (if ltb field (2 ^ (25 - 0)) then field else field + 2 ^ 64 - 2 ^ (25 - 0 + 1))))
pc_relative_address-target_example =
    pc_relative_address-target 4096 0x17ffffff 0 25 (omega arith) (omega arith)
