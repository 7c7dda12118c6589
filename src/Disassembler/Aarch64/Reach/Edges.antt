-- ===== src/Disassembler/Aarch64/Reach/Edges.antt =====
-- The edges that `DisassembleInstruction` adds to the graph.
use reil.Base.{
  ℕ, ◌+◌, ◌≡◌, refl, sym, ◌⊎◌, inl, inr, Bool, true, false, ◌||◌, if◌then◌else◌, arith, Option,
  some, none, List, get_elem?, u64,
}
use mathlib.Core.Path.{subst}
use reil.Aarch64.Decoder.Types.{Operand}
use reil.MemoryImage.{MemoryImage}
use reil.Flow.Edge.{NativeEdge, NativeEdgeKind, native_edge_eq}
use reil.Flow.Edge.Orders.{native_edge_order}
use reil.Flow.Native.{NativeFlowGraph, add_edge}
use reil.Flow.Native.Edges.{Represents, add_edge-Represents}
use reil.Disassembler.Aarch64.{Role, role, decode_at, pc_relative_address, add_branch_edge}

-- An edge for the branch to an operand: a register's target is left as 0.
abbrev pub BranchEdge : NativeEdgeKind → ℕ → Option Operand → NativeEdge → Type 0
BranchEdge kind address none e = ⊥
BranchEdge kind address (some (Operand.immediate offset)) e =
    e ≡ record { source = address; target = pc_relative_address address offset; kind = kind }
BranchEdge kind address (some _) e = e ≡ record { source = address; target = 0; kind = kind }

abbrev pub FlowEdge : ℕ → NativeEdge → Type 0
FlowEdge address e =
    e ≡ record { source = address; target = u64 (address + 4); kind = NativeEdgeKind.flow }

-- The edges that an instruction must have in the graph.
abbrev pub HasEdge : ℕ → List Operand → Role → NativeEdge → Type 0
HasEdge address operands (Role.may_branch i) e =
    FlowEdge address e ⊎ BranchEdge NativeEdgeKind.jump address (get_elem? operands i) e
HasEdge address operands Role.branches e =
    BranchEdge NativeEdgeKind.jump address (get_elem? operands 0) e
HasEdge address operands Role.calls e =
    FlowEdge address e ⊎ BranchEdge NativeEdgeKind.call address (get_elem? operands 0) e
HasEdge address operands (Role.ends kind) e =
    e ≡ record { source = address; target = 0; kind = kind }
HasEdge address operands Role.plain e = ⊥

-- The edges of the instruction at `address`.
abbrev pub EdgeOf : MemoryImage → ℕ → NativeEdge → Type 0
EdgeOf image address e =
    let i = decode_at image address in HasEdge address i.operands (role i.opcode) e

-- The edges of the instructions at a set of addresses.
abbrev pub EdgeOfAny : MemoryImage → (ℕ → Type 0) → NativeEdge → Type 0
EdgeOfAny image P e = (a : ℕ) × P a × EdgeOf image a e

-- The graph has the edges `before` and the new ones.
pub record Extends (before : NativeEdge → Bool) (New : NativeEdge → Type 0) (g : NativeFlowGraph)
    : Type 0 where
  pub edges : NativeEdge → Bool
  pub represents : Represents edges g
  pub keeps : (e : NativeEdge) → before e ≡ true → edges e ≡ true
  pub adds : (e : NativeEdge) → New e → edges e ≡ true

edge_itself : (e : NativeEdge) → native_edge_eq e e ≡ true
edge_itself e = (native_edge_order.same_iff_eq e e).1 refl

module _ (before : NativeEdge → Bool) (g : NativeFlowGraph) (r : Represents before g) where
  pub nothing-Extends : Extends before (λ e. ⊥) g
  nothing-Extends = record {
    edges = before;
    represents = r;
    keeps = λ e h. h;
    adds = λ e h. absurd h;
  }

  pub add_edge-Extends : (e : NativeEdge) → Extends before (λ x. x ≡ e) (add_edge g e)
  add_edge-Extends e = record {
    edges = λ x. native_edge_eq e x || before x;
    represents = add_edge-Represents before g r e;
    keeps = λ x h. ground arith;
    adds = λ x same.
        subst (λ y. (native_edge_eq e y || before y) ≡ true) (sym same)
          (ground (arith, edge_itself e));
  }

-- One extension after another.
pub then-Extends :
    (before : NativeEdge → Bool) (New Next : NativeEdge → Type 0) (g h : NativeFlowGraph)
    → (first : Extends before New g) → Extends first.edges Next h
    → Extends before (λ e. New e ⊎ Next e) h
then-Extends before New Next g h first second = record {
  edges = second.edges;
  represents = second.represents;
  keeps = λ e old. second.keeps e (first.keeps e old);
  adds = λ e new. elim new [ inl a ↦ second.keeps e (first.adds e a) | inr b ↦ second.adds e b ];
}

pub fewer-Extends :
    (before : NativeEdge → Bool) (New Fewer : NativeEdge → Type 0) (g : NativeFlowGraph)
    → Extends before New g
    → ((e : NativeEdge) → Fewer e → New e)
    → Extends before Fewer g
fewer-Extends before New Fewer g x less = record {
  edges = x.edges;
  represents = x.represents;
  keeps = x.keeps;
  adds = λ e h. x.adds e (less e h);
}

if-Extends :
    (before : NativeEdge → Bool) (New : NativeEdge → Type 0) (c : Bool) (g h : NativeFlowGraph)
    → Extends before New g
    → Extends before New h
    → Extends before New (if c then g else h)
if-Extends before New true g h a b = a
if-Extends before New false g h a b = b

pub add_branch_edge-Extends :
    (before : NativeEdge → Bool) (g : NativeFlowGraph) (source target : ℕ) (kind : NativeEdgeKind)
    → Represents before g
    → Extends before
        (λ e. e ≡ record { source = source; target = target; kind = kind })
        (add_branch_edge g source target kind)
unfolding add_branch_edge
add_branch_edge-Extends before g source target kind r =
    let split =
      if-Extends before (λ e. ⊥) _ _ _
        (fewer-Extends before _ (λ e. ⊥) _ (add_edge-Extends before g r _) (λ e h. absurd h))
        (nothing-Extends before g r) in
    fewer-Extends before _ _ _
      (then-Extends before (λ e. ⊥) _ _ _ split (add_edge-Extends split.edges _ split.represents _))
      (λ e h. inr h)
