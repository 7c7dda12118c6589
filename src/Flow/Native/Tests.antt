-- ===== src/Flow/Native/Tests.antt =====
-- A graph of two basic blocks, and the theorems on graphs at it.
use reil.Base.{◌≡◌, refl, Bool, false, not, ◌&&◌, ◌||◌, ◌∷◌, [], arith}
use reil.Flow.Containers.{change, insert, lower_bound}
use reil.Flow.Edge.{native_edge_lt, NativeEdgeKind, NativeEdge, native_edge_eq}
use reil.Flow.Native.{
  find_block, block_end, NativeFlowGraph, empty_graph, add_edge, remove_edge, basic_block_start,
  basic_block_end,
}
use reil.Flow.Native.Edges.{
  Represents, empty_graph-Represents, add_edge-Represents, remove_edge-Represents,
}
use reil.Flow.Native.Blocks.{IsAnswer, basic_block-IsAnswer}

abbrev enter : NativeEdge
enter = record { source = 0; target = 4096; kind = NativeEdgeKind.call }

abbrev back : NativeEdge
back = record { source = 4112; target = 4096; kind = NativeEdgeKind.jump }

abbrev has_enter : NativeEdge → Bool
has_enter x = native_edge_eq enter x || false

add_edge-Represents_example : Represents has_enter (add_edge empty_graph enter)
add_edge-Represents_example =
    add_edge-Represents (λ x. false) empty_graph empty_graph-Represents enter

one_edge : Represents has_enter (add_edge empty_graph enter)
one_edge = add_edge-Represents (λ x. false) empty_graph empty_graph-Represents enter

remove_edge-Represents_example :
    Represents
      (λ x. not (native_edge_eq enter x) && has_enter x)
      (remove_edge (add_edge empty_graph enter) enter).0
    × ((remove_edge (add_edge empty_graph enter) enter).1 ≡ has_enter enter)
remove_edge-Represents_example =
    remove_edge-Represents has_enter (add_edge empty_graph enter) one_edge enter

abbrev looping : NativeFlowGraph
looping = record {
  outgoing_edges = (0, enter ∷ []) ∷ (4112, back ∷ []) ∷ [];
  incoming_edges = (4096, enter ∷ back ∷ []) ∷ [];
}

looping_built : looping ≡ add_edge (add_edge empty_graph back) enter
unfolding add_edge change insert native_edge_lt
looping_built = refl

block_start_of_looping : basic_block_start looping 4104 ≡ 4096
unfolding basic_block_start find_block block_end lower_bound
block_start_of_looping = refl

block_end_of_looping : basic_block_end looping 4104 ≡ 4112
unfolding basic_block_end find_block block_end lower_bound
block_end_of_looping = refl

basic_block-IsAnswer_example :
    IsAnswer looping 4104 (basic_block_start looping 4104) (basic_block_end looping 4104)
basic_block-IsAnswer_example =
    basic_block-IsAnswer looping 4104 ((omega arith, tt), (tt, tt)) (tt, tt) (omega arith, tt)
