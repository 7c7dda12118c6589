-- ===== src/Flow/Graph.antt =====
-- flow_graph/flow_graph.h and flow_graph.cpp: the class `FlowGraph` without `Create` and `Load`,
-- which make it from a native flow graph.
mod Tests
use reil.Base.{
  ℕ, ◌-◌, ◌^◌, Bool, true, false, not, ◌||◌, Option, none, some, List, [], ◌∷◌, if◌then◌else◌, Run,
  ok, fault, check_failed,
}
use mathlib.Core.List.{reverse}
use reil.Flow.Containers.{Order, insert, erase}
use reil.Flow.Edge.{Node, node_eq, node_lt, node_le, EdgeKind, Edge, edge_eq, edge_lt}
use reil.Flow.Edge.Orders.{edge-IsTotalOrder}

instance abbrev pub edge_order : Order Edge
edge_order = record {
  less = edge_lt;
  same = edge_eq;
  same_iff_eq = edge-IsTotalOrder.same_iff_eq;
  total = edge-IsTotalOrder.total;
}

abbrev pub NodeMap : Type 0
NodeMap = List (Node × List Edge)

-- `std::map<Node, std::set<Edge>>`, in ascending order of the nodes.
unfoldable pub node_find : Node → NodeMap → Option (List Edge)
node_find k [] = none
node_find k ((j, s) ∷ m) = if node_eq j k then some s else node_find k m

-- `m[k] = s`
unfoldable pub node_put : Node → List Edge → NodeMap → NodeMap
node_put k s [] = (k, s) ∷ []
node_put k s ((j, t) ∷ m) =
    if node_lt k j
    then (k, s) ∷ (j, t) ∷ m
    else if node_eq j k
    then (k, s) ∷ m
    else (j, t) ∷ node_put k s m

unfoldable pub node_erase : Node → NodeMap → NodeMap
node_erase k [] = []
node_erase k ((j, s) ∷ m) = if node_eq j k then m else (j, s) ∷ node_erase k m

unfoldable pub node_lower_bound : Node → NodeMap → Option Node
node_lower_bound k [] = none
node_lower_bound k ((j, s) ∷ m) = if node_lt j k then node_lower_bound k m else some j

pub record FlowGraph : Type 0 where
  pub outgoing_edges : NodeMap
  pub incoming_edges : NodeMap

-- `outgoing_edges(node)` and `incoming_edges(node)`; `no_edges` if the node has no entry
unfoldable pub edges_of : NodeMap → Node → List Edge
edges_of m k = elim (node_find k m) [ some s ↦ s | none ↦ [] ]

unfoldable pub add_edge : FlowGraph → Edge → FlowGraph
add_edge g e = record {
  outgoing_edges =
      node_put e.source (insert e (edges_of g.outgoing_edges e.source)) g.outgoing_edges;
  incoming_edges =
      node_put e.target (insert e (edges_of g.incoming_edges e.target)) g.incoming_edges;
}

-- The entry of a node whose set has changed; it is erased if the set has become empty.
write_back : Node → List Edge → NodeMap → NodeMap
write_back k [] m = node_erase k m
write_back k (x ∷ rest) m = node_put k (x ∷ rest) m

-- One half of `RemoveEdge`, at the node `k`.
remove_at : Node → Edge → NodeMap → NodeMap
unfolding write_back
remove_at k e m = elim (node_find k m) [ none ↦ m | some s ↦ write_back k (erase e s) m ]

unfoldable pub remove_edge : FlowGraph → Edge → FlowGraph
unfolding remove_at
remove_edge g e = record {
  outgoing_edges = remove_at e.source e g.outgoing_edges;
  incoming_edges = remove_at e.target e g.incoming_edges;
}

-- The node that the integer 0 converts to.
abbrev pub zero_node : Node
zero_node = record { address = 0; offset = 0 }

abbrev is_final : EdgeKind → Bool
is_final EdgeKind.native_return = true
is_final EdgeKind.native_break = true
is_final _ = false

all_final : List Edge → Bool
all_final [] = true
all_final (e ∷ s) = if not (is_final e.kind) then false else all_final s

unfoldable pub resolved : FlowGraph → Bool
unfolding all_final
resolved g = elim (node_find zero_node g.incoming_edges) [ none ↦ true | some s ↦ all_final s ]

-- `Entry`, with its two `CHECK`s.
unfoldable pub entry : FlowGraph → Run Node
entry g = elim (node_find zero_node g.outgoing_edges) [
  | some (e ∷ []) ↦ ok e.target
  | some _ ↦ fault check_failed
  | none ↦ fault check_failed
]

-- The end of the block that starts at `start`, if it is a complete block that holds `node`.
unfoldable pub block_end : NodeMap → Node → Node → Node → Option Node
block_end outgoing start node next = elim (node_lower_bound start outgoing) [
  | none ↦ none
  | some last ↦ if node_le next last then none else if node_lt last node then none else some last
]

-- The loop of `BasicBlockStart` and `BasicBlockEnd` over the nodes with incoming edges, from the
-- last one down: the first and the last node of the block that holds `node`.
unfoldable pub find_block : NodeMap → Node → NodeMap → Node → Option (Node × Node)
find_block outgoing node [] next = none
find_block outgoing node ((k, s) ∷ below) next =
    let lower = find_block outgoing node below k in
    if node_le k node
    then elim (block_end outgoing k node next) [ none ↦ none | some last ↦ some (k, last) ]
    else lower

-- The first bound on the start of the next block.
abbrev pub last_node : Node
last_node = record { address = 2 ^ 64 - 1; offset = 0xfffe }

unfoldable pub basic_block_start : FlowGraph → Node → Node
basic_block_start g node =
    elim (find_block g.outgoing_edges node (reverse g.incoming_edges) last_node) [
      | none ↦ zero_node
      | some (first, last) ↦ first
    ]

unfoldable pub basic_block_end : FlowGraph → Node → Node
basic_block_end g node =
    elim (find_block g.outgoing_edges node (reverse g.incoming_edges) last_node) [
      | none ↦ zero_node
      | some (first, last) ↦ last
    ]
