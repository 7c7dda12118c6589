-- ===== src/Flow/Graph/Tests.antt =====
-- A graph of one edge.
use reil.Base.{◌≡◌, refl, [], ok}
use reil.Flow.Containers.{insert, erase}
use reil.Flow.Edge.{node_eq, EdgeKind, Edge, edge_eq}
use reil.Flow.Graph.{
  FlowGraph, add_edge, remove_edge, entry, zero_node, node_find, node_put, node_erase, edges_of,
}

abbrev into : Edge
into = record {
  source = zero_node;
  target = record { address = 4096; offset = 0 };
  kind = EdgeKind.native_call;
}

abbrev nothing : FlowGraph
nothing = record { outgoing_edges = []; incoming_edges = [] }

entry_of_one : entry (add_edge nothing into) ≡ ok into.target
unfolding entry add_edge node_find node_put edges_of insert node_eq
entry_of_one = refl

removed_again : remove_edge (add_edge nothing into) into ≡ nothing
unfolding remove_edge add_edge node_find node_put node_erase edges_of insert erase node_eq edge_eq
removed_again = refl
