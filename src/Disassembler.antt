-- ===== src/Disassembler.antt =====
-- disassembler/disassembler.cpp: the disassembler's front end, over its part for AArch64.
pub mod Aarch64
pub mod Functions
use Prim.Native.String.{String, compare}
use Prim.Native.Nat.{Ordering}
use reil.Base.{ℕ, Bool, true, false, if◌then◌else◌, List, Run, fault, Fault, aborted, check, ◌>>◌}
use reil.MemoryImage.{MemoryImage}
use reil.Flow.Edge.{NativeEdgeKind}
use reil.Flow.Native.{NativeFlowGraph, empty_graph, add_edge}

-- `memory_image.architecture_name() == "aarch64"`
abbrev pub is_aarch64 : MemoryImage → Bool
is_aarch64 image = elim (compare image.architecture_name "aarch64") [
  | Ordering.eq ↦ true
  | _ ↦ false
]

-- `FindFunctions`, `Disassemble` and `DisassembleFunction`, which abort on other architectures.
unfoldable pub find_functions : MemoryImage → Run (List ℕ)
find_functions image = check (is_aarch64 image) aborted >> Functions.find_functions image

unfoldable pub disassemble : MemoryImage → NativeFlowGraph → ℕ → Run NativeFlowGraph
disassemble image g address =
    check (is_aarch64 image) aborted >> Aarch64.disassemble image g address

unfoldable pub disassemble_function : MemoryImage → ℕ → Run NativeFlowGraph
disassemble_function image address =
    check (is_aarch64 image) aborted
    >> disassemble image
        (add_edge empty_graph (record { source = 0; target = address; kind = NativeEdgeKind.call }))
        address
