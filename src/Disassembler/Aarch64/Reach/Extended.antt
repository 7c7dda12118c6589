-- ===== src/Disassembler/Aarch64/Reach/Extended.antt =====
-- Every instruction adds its edges to the graph.
use reil.Base.{
  ℕ, zero, suc, ◌+◌, ◌≡◌, refl, ◌⊎◌, Bool, true, leb, arith, some, none, List, [], ◌∷◌, length,
  get_elem?, u64, Returns,
}
use reil.Aarch64.Decoder.Types.{Operand}
use reil.MemoryImage.{MemoryImage}
use reil.Flow.Containers.{find}
use reil.Flow.Edge.{NativeEdge, NativeEdgeKind}
use reil.Flow.Native.{NativeFlowGraph}
use reil.Flow.Native.Edges.{Represents}
use reil.Disassembler.Aarch64.{
  Role, role, decode_at, add_branch_edge, branch, maybe_branch, call, with_operand, follow, flow_on,
  go_on, known_target, target_or_zero, disassemble_instruction,
}
use reil.Disassembler.Aarch64.Complete.{needed, has_operands}
use reil.Disassembler.Aarch64.Reach.Instruction.{decode_at-IsComplete}
use reil.Disassembler.Aarch64.Reach.Edges.{
  BranchEdge, FlowEdge, HasEdge, EdgeOf, Extends, nothing-Extends, add_edge-Extends, then-Extends,
  fewer-Extends, add_branch_edge-Extends,
}

-- The edge that a branch adds is the one for its operand.
same_edge :
    (kind : NativeEdgeKind) (address : ℕ) (dst : Operand) (e : NativeEdge)
    → BranchEdge kind address (some dst) e
    → e
      ≡ record { source = address; target = target_or_zero (known_target address dst); kind = kind }
same_edge kind address (Operand.immediate offset) e h = h
same_edge kind address (Operand.register r) e h = h
same_edge kind address (Operand.system_register r) e h = h
same_edge kind address (Operand.shift s) e h = h
same_edge kind address (Operand.extend x) e h = h
same_edge kind address (Operand.immediate_offset o) e h = h
same_edge kind address (Operand.register_offset o) e h = h

module _ (before : NativeEdge → Bool) (g : NativeFlowGraph) (address : ℕ)
    (r : Represents before g) where
  branch-Extends :
      (dst : Operand)
      → Extends before (BranchEdge NativeEdgeKind.jump address (some dst)) (branch g address dst).0
  unfolding branch
  branch-Extends dst =
      fewer-Extends before _ _ _
        (add_branch_edge-Extends before g address (target_or_zero (known_target address dst))
          NativeEdgeKind.jump r)
        (same_edge NativeEdgeKind.jump address dst)

  flow_on-Extends : Extends before (FlowEdge address) (flow_on g address)
  flow_on-Extends = add_edge-Extends before g r _

  -- The edge to the next instruction and the one for the branch.
  both-Extends :
      (kind : NativeEdgeKind) (dst : Operand)
      → Extends before
          (λ e. FlowEdge address e ⊎ BranchEdge kind address (some dst) e)
          (add_branch_edge
            (flow_on g address)
            address
            (target_or_zero (known_target address dst))
            kind)
  both-Extends kind dst = then-Extends before _ _ _ _ flow_on-Extends (
      fewer-Extends flow_on-Extends.edges _ _ _
        (add_branch_edge-Extends flow_on-Extends.edges (flow_on g address) address
          (target_or_zero (known_target address dst)) kind flow_on-Extends.represents)
        (same_edge kind address dst))

  found_operand-Extends :
      (operands : List Operand) (i : ℕ)
      → leb (suc i) (length operands) ≡ true
      → Returns (with_operand operands i (maybe_branch g address)) (λ x.
        Extends before
          (λ e.
            FlowEdge address e ⊎ BranchEdge NativeEdgeKind.jump address (get_elem? operands i) e)
          x.0)
  unfolding maybe_branch
  found_operand-Extends [] i h = absurd (ground arith)
  found_operand-Extends (dst ∷ operands) zero h =
      (maybe_branch g address dst, refl, both-Extends NativeEdgeKind.jump dst)
  found_operand-Extends (dst ∷ operands) (suc i) h = found_operand-Extends operands i (ground arith)

  go_on-Extends : Extends before (λ e. ⊥) (go_on g address)
  go_on-Extends =
      elim (find (u64 (address + 4)) g.incoming_edges)
        as (λ o. Extends before (λ e. ⊥) (elim o [ some _ ↦ flow_on g address | none ↦ g ])) [
          | none ↦ nothing-Extends before g r
          | some _ ↦ fewer-Extends before _ _ _ flow_on-Extends (λ e h. absurd h)
        ]

  follow-Extends :
      (operands : List Operand) (what : Role)
      → leb (needed what) (length operands) ≡ true
      → Returns
          (follow g address operands what)
          (λ x. Extends before (HasEdge address operands what) x.0)
  unfolding call
  follow-Extends operands (Role.may_branch i) h = found_operand-Extends operands i h
  follow-Extends [] Role.branches h = absurd (ground arith)
  follow-Extends (dst ∷ operands) Role.branches h = (branch g address dst, refl, branch-Extends dst)
  follow-Extends [] Role.calls h = absurd (ground arith)
  follow-Extends (dst ∷ operands) Role.calls h =
      (call g address dst, refl, both-Extends NativeEdgeKind.call dst)
  follow-Extends operands (Role.ends kind) h = (_, refl, add_edge-Extends before g r _)
  follow-Extends operands Role.plain h = (_, refl, go_on-Extends)

-- Disassembling an instruction keeps the edges of the graph and adds those of the instruction.
pub disassemble_instruction-Extends :
    (image : MemoryImage) (before : NativeEdge → Bool) (g : NativeFlowGraph) (address : ℕ)
    → Represents before g
    → Returns
        (disassemble_instruction image g address)
        (λ x. Extends before (EdgeOf image address) x.0)
unfolding disassemble_instruction
disassemble_instruction-Extends image before g address r =
    let i = decode_at image address in
    follow-Extends before g address r i.operands (role i.opcode)
      (has_operands i (decode_at-IsComplete image address))
