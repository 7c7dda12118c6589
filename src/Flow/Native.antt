-- ===== src/Flow/Native.antt =====
-- flow_graph/native_flow_graph.h and native_flow_graph.cpp: the class `NativeFlowGraph`. `Save`,
-- `Load` and `LoadBinexport2`, which go through protocol buffers, are left out.
pub mod Edges
pub mod Blocks
mod Tests
use reil.Base.{
  ℕ, suc, ◌-◌, ◌^◌, Bool, true, false, not, ◌&&◌, ◌||◌, Option, none, some, List, [], ◌∷◌, ltb, leb,
  ◌==◌, if◌then◌else◌, length, Run, ok, fault, check_failed,
}
use mathlib.Core.List.{reverse}
use reil.Flow.Containers.{find, change, erase_key, lower_bound, member, insert, erase}
use reil.Flow.Edge.{NativeEdgeKind, NativeEdge}
use reil.Flow.Edge.Orders.{native_edge_order}

abbrev pub EdgeMap : Type 0
EdgeMap = List (ℕ × List NativeEdge)

pub record NativeFlowGraph : Type 0 where
  pub outgoing_edges : EdgeMap
  pub incoming_edges : EdgeMap

abbrev pub empty_graph : NativeFlowGraph
empty_graph = record { outgoing_edges = []; incoming_edges = [] }

unfoldable pub add_edge : NativeFlowGraph → NativeEdge → NativeFlowGraph
add_edge g e = record {
  outgoing_edges = change e.source [] (insert e) g.outgoing_edges;
  incoming_edges = change e.target [] (insert e) g.incoming_edges;
}

-- The entry of a node whose set has changed; it is erased if the set has become empty.
write_back : ℕ → List NativeEdge → EdgeMap → EdgeMap
write_back k [] m = erase_key k m
write_back k (x ∷ rest) m = change k [] (λ _. x ∷ rest) m

-- One half of `RemoveEdge`, at the node `k`.
remove_at : ℕ → NativeEdge → EdgeMap → EdgeMap
unfolding write_back
remove_at k e m = elim (find k m) [ none ↦ m | some s ↦ write_back k (erase e s) m ]

-- Whether `erase` found the edge.
found_at : ℕ → NativeEdge → EdgeMap → Bool
found_at k e m = elim (find k m) [ none ↦ false | some s ↦ member e s ]

unfoldable pub remove_edge : NativeFlowGraph → NativeEdge → NativeFlowGraph × Bool
unfolding remove_at found_at
remove_edge g e = (
  record {
    outgoing_edges = remove_at e.source e g.outgoing_edges;
    incoming_edges = remove_at e.target e g.incoming_edges;
  },
  found_at e.source e g.outgoing_edges || found_at e.target e g.incoming_edges,
)

-- `outgoing_edges(node)` and `incoming_edges(node)`; `no_edges` if the node has no entry
unfoldable pub edges_at : EdgeMap → ℕ → List NativeEdge
edges_at m k = elim (find k m) [ some s ↦ s | none ↦ [] ]

-- The test of the loop of `resolved`.
abbrev is_final : NativeEdgeKind → Bool
is_final NativeEdgeKind.return = true
is_final NativeEdgeKind.break = true
is_final _ = false

all_final : List NativeEdge → Bool
all_final [] = true
all_final (e ∷ s) = if not (is_final e.kind) then false else all_final s

unfoldable pub resolved : NativeFlowGraph → Bool
unfolding all_final
resolved g = elim (find 0 g.incoming_edges) [ none ↦ true | some s ↦ all_final s ]

-- `Entry`, with its two `CHECK`s.
unfoldable pub entry : NativeFlowGraph → Run ℕ
entry g = elim (find 0 g.outgoing_edges) [
  | some (e ∷ []) ↦ ok e.target
  | some _ ↦ fault check_failed
  | none ↦ fault check_failed
]

-- The end of the block that starts at `start`, if it is a complete block that holds `node`.
unfoldable pub block_end : EdgeMap → ℕ → ℕ → ℕ → Option ℕ
block_end outgoing start node next = elim (lower_bound start outgoing) [
  | none ↦ none
  | some last ↦ if leb next last then none else if ltb last node then none else some last
]

-- The loop of `BasicBlockStart` and `BasicBlockEnd` over the nodes with incoming edges, from the
-- last one down: the first and the last address of the block that holds `node`.
unfoldable pub find_block : EdgeMap → ℕ → EdgeMap → ℕ → Option (ℕ × ℕ)
find_block outgoing node [] next = none
find_block outgoing node ((k, s) ∷ below) next =
    if leb k node
    then elim (block_end outgoing k node next) [ none ↦ none | some last ↦ some (k, last) ]
    else find_block outgoing node below k

unfoldable pub basic_block_start : NativeFlowGraph → ℕ → ℕ
basic_block_start g node =
    elim (find_block g.outgoing_edges node (reverse g.incoming_edges) (2 ^ 64 - 1)) [
      | none ↦ 0
      | some (first, last) ↦ first
    ]

unfoldable pub basic_block_end : NativeFlowGraph → ℕ → ℕ
basic_block_end g node =
    elim (find_block g.outgoing_edges node (reverse g.incoming_edges) (2 ^ 64 - 1)) [
      | none ↦ 0
      | some (first, last) ↦ last
    ]
