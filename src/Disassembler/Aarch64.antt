-- ===== src/Disassembler/Aarch64.antt =====
-- disassembler/aarch64/disassemble.cpp: the flow of control is followed from an address.
mod Tests
pub mod Reach
pub mod Target
pub mod Complete
pub mod Addresses
use reil.Base.{
  ℕ, zero, suc, ◌+◌, ◌-◌, ◌*◌, ◌^◌, ◌==◌, ltb, leb, not, ◌&&◌, if◌then◌else◌, Bool, true, false,
  Option, none, some, List, [], ◌∷◌, length, get_elem?, get_or, u64, bit_and, Run, ok, fault, ◌>>=◌,
  Fault, undefined, out_of_fuel,
}
use reil.Aarch64.Decoder.{decode}
use reil.Aarch64.Decoder.Types.{Opcode, Immediate, Operand, Instruction, unallocated}
use reil.MemoryImage.{MemoryImage, read}
use reil.Flow.Containers.{Order, find, member, insert}
use reil.Flow.Edge.{NativeEdge, NativeEdgeKind}
use reil.Flow.Native.{NativeFlowGraph, add_edge, basic_block_start}
use reil.Disassembler.Aarch64.Addresses.{address_order, insert_all}

-- Four bytes as a number, on a little-endian machine.
abbrev pub word : List ℕ → ℕ
word bytes =
    get_or bytes 0 0
    + get_or bytes 1 0 * 2 ^ 8
    + get_or bytes 2 0 * 2 ^ 16
    + get_or bytes 3 0 * 2 ^ 24

-- `DecodeInstruction`
unfoldable pub decode_at : MemoryImage → ℕ → Instruction
decode_at image address =
    let bytes = read image address in
    if leb 4 (length bytes)
    then decode address (word bytes)
    else record unallocated { address = address }

unfoldable pub pc_relative_address : ℕ → Immediate → ℕ
pc_relative_address address offset =
    if bit_and offset.value (2 ^ (offset.size - 1)) == 0
    then u64 (address + offset.value)
    else u64 (address + 2 ^ 64 - u64 (2 ^ 64 - 1 - offset.value + 1))

unfoldable pub add_branch_edge : NativeFlowGraph → ℕ → ℕ → NativeEdgeKind → NativeFlowGraph
add_branch_edge g source target kind =
    let bb_start = basic_block_start g target in
    add_edge
      (if not (bb_start == 0) && ltb bb_start target
        then add_edge g (record {
          source = u64 (target + 2 ^ 64 - 4);
          target = target;
          kind = NativeEdgeKind.flow;
        })
        else g)
      (record { source = source; target = target; kind = kind })

-- The target of a branch to an immediate; `none` for a register.
abbrev pub known_target : ℕ → Operand → Option ℕ
known_target address (Operand.immediate offset) = some (pc_relative_address address offset)
known_target address _ = none

-- The target, where that of a register is left as 0.
abbrev pub target_or_zero : Option ℕ → ℕ
target_or_zero (some target) = target
target_or_zero none = 0

abbrev pub and_target : Option ℕ → List ℕ → List ℕ
and_target (some target) next = insert target next
and_target none next = next

-- The edge to the next instruction, of the first statements of `MaybeBranch` and `Call`.
abbrev pub flow_on : NativeFlowGraph → ℕ → NativeFlowGraph
flow_on g address =
    add_edge g (record { source = address; target = u64 (address + 4); kind = NativeEdgeKind.flow })

unfoldable pub branch : NativeFlowGraph → ℕ → Operand → NativeFlowGraph × List ℕ
branch g address dst =
    let target = known_target address dst in
    (add_branch_edge g address (target_or_zero target) NativeEdgeKind.jump, and_target target [])

unfoldable pub maybe_branch : NativeFlowGraph → ℕ → Operand → NativeFlowGraph × List ℕ
maybe_branch g address dst =
    let target = known_target address dst in
    (
      add_branch_edge (flow_on g address) address (target_or_zero target) NativeEdgeKind.jump,
      and_target target (u64 (address + 4) ∷ []),
    )

unfoldable pub call : NativeFlowGraph → ℕ → Operand → NativeFlowGraph × List ℕ
call g address dst =
    let target = known_target address dst in
    (
      add_branch_edge (flow_on g address) address (target_or_zero target) NativeEdgeKind.call,
      u64 (address + 4) ∷ [],
    )

-- The cases of the switch, with the place of the operand that a branch reads.
pub data Role : Type 0 where
  branches calls plain : Role
  may_branch : ℕ → Role
  ends : NativeEdgeKind → Role

abbrev pub role : Opcode → Role
role Opcode.b_cond = Role.may_branch 0
role Opcode.b = Role.branches
role Opcode.br = Role.branches
role Opcode.braa = Role.branches
role Opcode.braaz = Role.branches
role Opcode.brab = Role.branches
role Opcode.brabz = Role.branches
role Opcode.bl = Role.calls
role Opcode.blr = Role.calls
role Opcode.blraa = Role.calls
role Opcode.blraaz = Role.calls
role Opcode.blrab = Role.calls
role Opcode.blrabz = Role.calls
role Opcode.cbnz = Role.may_branch 1
role Opcode.cbz = Role.may_branch 1
role Opcode.tbnz = Role.may_branch 2
role Opcode.tbz = Role.may_branch 2
role Opcode.eret = Role.ends NativeEdgeKind.return
role Opcode.eretaa = Role.ends NativeEdgeKind.return
role Opcode.eretaaz = Role.ends NativeEdgeKind.return
role Opcode.eretab = Role.ends NativeEdgeKind.return
role Opcode.eretabz = Role.ends NativeEdgeKind.return
role Opcode.ret = Role.ends NativeEdgeKind.return
role Opcode.retaa = Role.ends NativeEdgeKind.return
role Opcode.retaaz = Role.ends NativeEdgeKind.return
role Opcode.retab = Role.ends NativeEdgeKind.return
role Opcode.retabz = Role.ends NativeEdgeKind.return
role Opcode.brk = Role.ends NativeEdgeKind.break
role Opcode.unallocated = Role.ends NativeEdgeKind.invalid
role _ = Role.plain

-- `insn.operands[i]`, which is undefined behind the end.
abbrev pub with_operand {ℓ} : {A : Type ℓ} → List Operand → ℕ → (Operand → A) → Run A
with_operand operands i use_it = elim (get_elem? operands i) [
  | some dst ↦ ok (use_it dst)
  | none ↦ fault undefined
]

-- An instruction that is no branch flows into a block that begins behind it.
abbrev pub go_on : NativeFlowGraph → ℕ → NativeFlowGraph
go_on g address = elim (find (u64 (address + 4)) g.incoming_edges) [
  | some _ ↦ flow_on g address
  | none ↦ g
]

abbrev pub follow : NativeFlowGraph → ℕ → List Operand → Role → Run (NativeFlowGraph × List ℕ)
follow g address operands (Role.may_branch i) = with_operand operands i (maybe_branch g address)
follow g address operands Role.branches = with_operand operands 0 (branch g address)
follow g address operands Role.calls = with_operand operands 0 (call g address)
follow g address operands (Role.ends kind) =
    ok (add_edge g (record { source = address; target = 0; kind = kind }), [])
follow g address operands Role.plain = ok (go_on g address, u64 (address + 4) ∷ [])

unfoldable pub disassemble_instruction :
    MemoryImage → NativeFlowGraph → ℕ → Run (NativeFlowGraph × List ℕ)
disassemble_instruction image g address =
    let insn = decode_at image address in follow g address insn.operands (role insn.opcode)

-- The local variables of `Disassemble`, with the graph that it changes.
pub record Search : Type 0 where
  pub queue : List ℕ
  pub visited : List ℕ
  pub graph : NativeFlowGraph

-- The body of the loop, for an address that has been taken off the queue.
unfoldable pub visit : MemoryImage → Search → ℕ → Run Search
visit image s address =
    if member address s.visited
    then ok s
    else disassemble_instruction image s.graph address >>= λ r.
        ok (record {
          queue = insert_all r.1 s.queue;
          visited = insert address s.visited;
          graph = r.0;
        })

-- The loop, on fuel.
unfoldable pub search_from : ℕ → MemoryImage → List ℕ → List ℕ → NativeFlowGraph → Run Search
search_from fuel image [] visited g = ok (record { queue = []; visited = visited; graph = g })
search_from zero image (a ∷ queue) visited g = fault out_of_fuel
search_from (suc fuel) image (a ∷ queue) visited g =
    visit image (record { queue = queue; visited = visited; graph = g }) a >>= λ s.
    search_from fuel image s.queue s.visited s.graph

-- `Disassemble`, whose result is the changed graph. Each of 2^64 addresses is visited once and
-- adds two addresses at most to the queue.
unfoldable pub disassemble : MemoryImage → NativeFlowGraph → ℕ → Run NativeFlowGraph
disassemble image g address =
    search_from (3 * 2 ^ 64 + 1) image (address ∷ []) [] g >>= λ s. ok s.graph
