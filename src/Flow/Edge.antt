-- ===== src/Flow/Edge.antt =====
-- flow_graph/native_edge.h, native_edge.cpp, node.h, node.cpp, edge.h and edge.cpp: edges of native
-- flow graphs, and nodes and edges of REIL flow graphs, with their comparisons.
pub mod Orders
use reil.Base.{ℕ, Bool, true, false, not, ◌&&◌, ltb, ◌==◌, if◌then◌else◌}

pub data NativeEdgeKind : Type 0 where
  invalid flow jump call return break : NativeEdgeKind

-- The number of an enumerator, by which `<` compares.
abbrev pub native_kind_number : NativeEdgeKind → ℕ
native_kind_number NativeEdgeKind.invalid = 0
native_kind_number NativeEdgeKind.flow = 1
native_kind_number NativeEdgeKind.jump = 2
native_kind_number NativeEdgeKind.call = 3
native_kind_number NativeEdgeKind.return = 4
native_kind_number NativeEdgeKind.break = 5

pub record NativeEdge : Type 0 where
  pub source : ℕ
  pub target : ℕ
  pub kind : NativeEdgeKind

unfoldable pub native_edge_eq : NativeEdge → NativeEdge → Bool
native_edge_eq a b =
    a.source == b.source
    && (a.target == b.target && native_kind_number a.kind == native_kind_number b.kind)

unfoldable pub native_edge_lt : NativeEdge → NativeEdge → Bool
native_edge_lt a b =
    if ltb a.source b.source
    then true
    else if ltb b.source a.source
    then false
    else if ltb a.target b.target
    then true
    else if ltb b.target a.target
    then false
    else ltb (native_kind_number a.kind) (native_kind_number b.kind)

pub record Node : Type 0 where
  pub address : ℕ
  pub offset : ℕ

unfoldable pub node_eq : Node → Node → Bool
node_eq a b = a.address == b.address && a.offset == b.offset

unfoldable pub node_lt : Node → Node → Bool
node_lt a b =
    if ltb a.address b.address
    then true
    else if ltb b.address a.address
    then false
    else ltb a.offset b.offset

unfoldable pub node_le : Node → Node → Bool
node_le a b = not (node_lt b a)

pub data EdgeKind : Type 0 where
  invalid flow jump native_flow native_jump native_call native_return native_break : EdgeKind

abbrev pub kind_number : EdgeKind → ℕ
kind_number EdgeKind.invalid = 0
kind_number EdgeKind.flow = 1
kind_number EdgeKind.jump = 2
kind_number EdgeKind.native_flow = 3
kind_number EdgeKind.native_jump = 4
kind_number EdgeKind.native_call = 5
kind_number EdgeKind.native_return = 6
kind_number EdgeKind.native_break = 7

pub record Edge : Type 0 where
  pub source : Node
  pub target : Node
  pub kind : EdgeKind

unfoldable pub edge_eq : Edge → Edge → Bool
edge_eq a b =
    node_eq a.source b.source
    && (node_eq a.target b.target && kind_number a.kind == kind_number b.kind)

unfoldable pub edge_lt : Edge → Edge → Bool
edge_lt a b =
    if node_lt a.source b.source
    then true
    else if node_lt b.source a.source
    then false
    else if node_lt a.target b.target
    then true
    else if node_lt b.target a.target
    then false
    else ltb (kind_number a.kind) (kind_number b.kind)
