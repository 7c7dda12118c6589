-- ===== src/Flow/Native/Edges.antt =====
-- `AddEdge` and `RemoveEdge` as changes of a set of edges.
use reil.Base.{
  ℕ, ◌≡◌, refl, sym, ap, ◌∙◌, Bool, false, not, ◌&&◌, ◌||◌, none, some, List, [], ◌∷◌, ◌==◌,
  if◌then◌else◌, inl, inr, Bool-cases, Option-cases, ==_iff, arith,
}
use reil.Flow.Containers.{find, change, erase_key, IsSorted, member, insert, erase}
use reil.Flow.Containers.Laws.{
  find-change, change-IsSorted, erase_key-IsSorted, find-erase_key, member-insert, member-erase,
}
use reil.Flow.Edge.{NativeEdge, native_edge_eq}
use reil.Flow.Edge.Orders.{native_edge_order}
use reil.Flow.Native.{
  EdgeMap, NativeFlowGraph, empty_graph, write_back, add_edge, remove_at, found_at, remove_edge,
  edges_at,
}

-- Whether the map has the edge in the set of node `k`.
abbrev pub has : EdgeMap → ℕ → NativeEdge → Bool
has m k e = member e (edges_at m k)

edges_at-change :
    (m : EdgeMap) (k j : ℕ) (f : List NativeEdge → List NativeEdge)
    → IsSorted m
    → edges_at (change k [] f m) j ≡ (if k == j then f (edges_at m k) else edges_at m j)
unfolding edges_at
edges_at-change m k j f s = ground (arith, find-change k j [] f m s)

edges_at-erase_key :
    (m : EdgeMap) (k j : ℕ)
    → IsSorted m
    → edges_at (erase_key k m) j ≡ (if k == j then [] else edges_at m j)
unfolding edges_at
edges_at-erase_key m k j s = ground (arith, find-erase_key k j m s)

-- Both halves of `AddEdge` and `RemoveEdge` act on one node's set.
has-change :
    (m : EdgeMap) (k j : ℕ) (e x : NativeEdge)
    → IsSorted m
    → has (change k [] (insert e) m) j x ≡ ((k == j) && native_edge_eq e x) || has m j x
has-change m k j e x s = elim (Bool-cases (k == j)) [
  | inl here ↦
      rw (edges_at-change m k j (insert e) s, here, member-insert e x (edges_at m k))
        (rw ((==_iff k j).0 here) refl)
  | inr elsewhere ↦ rw (edges_at-change m k j (insert e) s, elsewhere) refl
]

edges_at-write_back :
    (m : EdgeMap) (k j : ℕ) (s : List NativeEdge)
    → IsSorted m
    → edges_at (write_back k s m) j ≡ (if k == j then s else edges_at m j)
unfolding write_back
edges_at-write_back m k j [] sorted = edges_at-erase_key m k j sorted
edges_at-write_back m k j (x ∷ s) sorted = edges_at-change m k j (λ _. x ∷ s) sorted

edges_at-missing : (m : EdgeMap) (k : ℕ) → find k m ≡ none → edges_at m k ≡ []
unfolding edges_at
edges_at-missing m k missing = rw (missing, edges_at) refl

edges_at-present :
    (m : EdgeMap) (k : ℕ) (set : List NativeEdge) → find k m ≡ some set → edges_at m k ≡ set
unfolding edges_at
edges_at-present m k set present = rw (present, edges_at) refl

remove_at-missing : (m : EdgeMap) (k : ℕ) (e : NativeEdge) → find k m ≡ none → remove_at k e m ≡ m
unfolding remove_at
remove_at-missing m k e missing = rw (missing, remove_at) refl

remove_at-present :
    (m : EdgeMap) (k : ℕ) (e : NativeEdge) (set : List NativeEdge)
    → find k m ≡ some set
    → remove_at k e m ≡ write_back k (erase e set) m
unfolding remove_at
remove_at-present m k e set present = rw (present, remove_at) refl

found_at-missing : (m : EdgeMap) (k : ℕ) (e : NativeEdge) → find k m ≡ none → found_at k e m ≡ false
unfolding found_at
found_at-missing m k e missing = rw (missing, found_at) refl

found_at-present :
    (m : EdgeMap) (k : ℕ) (e : NativeEdge) (set : List NativeEdge)
    → find k m ≡ some set
    → found_at k e m ≡ member e set
unfolding found_at
found_at-present m k e set present = rw (present, found_at) refl

member-nil : (e : NativeEdge) → member e [] ≡ false
unfolding member
member-nil e = refl

erase-nil : (e : NativeEdge) → erase e [] ≡ []
unfolding erase
erase-nil e = refl

found_at-has : (m : EdgeMap) (k : ℕ) (e : NativeEdge) → found_at k e m ≡ has m k e
found_at-has m k e = elim (Option-cases (find k m)) [
  | inl missing ↦
      rw (found_at-missing m k e missing, edges_at-missing m k missing) (sym (member-nil e))
  | inr (set, present) ↦
      rw (found_at-present m k e set present, edges_at-present m k set present) refl
]

edges_at-remove_at :
    (m : EdgeMap) (k j : ℕ) (e : NativeEdge)
    → IsSorted m
    → edges_at (remove_at k e m) j ≡ (if k == j then erase e (edges_at m k) else edges_at m j)
edges_at-remove_at m k j e sorted = elim (Option-cases (find k m)) [
  | inl missing ↦
      rw (remove_at-missing m k e missing, edges_at-missing m k missing, erase-nil e)
        (elim (Bool-cases (k == j)) [
          | inl here ↦
              rw here (ap (edges_at m) (sym ((==_iff k j).0 here)) ∙ edges_at-missing m k missing)
          | inr elsewhere ↦ rw elsewhere refl
        ])
  | inr (set, present) ↦
      rw (edges_at-present m k set present, remove_at-present m k e set present)
        (edges_at-write_back m k j (erase e set) sorted)
]

has-remove_at :
    (m : EdgeMap) (k j : ℕ) (e x : NativeEdge)
    → IsSorted m
    → has (remove_at k e m) j x ≡ not ((k == j) && native_edge_eq e x) && has m j x
has-remove_at m k j e x s = elim (Bool-cases (k == j)) [
  | inl here ↦
      rw (edges_at-remove_at m k j e s, here, member-erase e x (edges_at m k))
        (rw ((==_iff k j).0 here) refl)
  | inr elsewhere ↦ rw (edges_at-remove_at m k j e s, elsewhere) refl
]

write_back-IsSorted :
    (m : EdgeMap) (k : ℕ) (s : List NativeEdge) → IsSorted m → IsSorted (write_back k s m)
unfolding write_back
write_back-IsSorted m k [] sorted = erase_key-IsSorted k m sorted
write_back-IsSorted m k (x ∷ s) sorted = change-IsSorted k [] (λ _. x ∷ s) m sorted

remove_at-IsSorted :
    (m : EdgeMap) (k : ℕ) (e : NativeEdge) → IsSorted m → IsSorted (remove_at k e m)
remove_at-IsSorted m k e sorted = elim (Option-cases (find k m)) [
  | inl missing ↦ rw (remove_at-missing m k e missing) sorted
  | inr (set, present) ↦
      rw (remove_at-present m k e set present) (write_back-IsSorted m k (erase e set) sorted)
]

-- The graph as a set of edges: the keys of both maps ascend, and an edge is in the set of its
-- source exactly when it is in the set of its target, and in no other node's set.
pub record Represents (edges : NativeEdge → Bool) (g : NativeFlowGraph) : Type 0 where
  pub outgoing_sorted : IsSorted g.outgoing_edges
  pub incoming_sorted : IsSorted g.incoming_edges
  pub outgoing : (k : ℕ) (x : NativeEdge) → has g.outgoing_edges k x ≡ ((x.source == k) && edges x)
  pub incoming : (k : ℕ) (x : NativeEdge) → has g.incoming_edges k x ≡ ((x.target == k) && edges x)

pub empty_graph-Represents : Represents (λ _. false) empty_graph
unfolding edges_at find member
empty_graph-Represents = record {
  outgoing_sorted = tt;
  incoming_sorted = tt;
  outgoing = λ k x. ground arith;
  incoming = λ k x. ground arith;
}

-- For equal edges the sources and the targets are equal.
same_source :
    (e x : NativeEdge) (k : ℕ)
    → (e.source == k) && native_edge_eq e x ≡ (x.source == k) && native_edge_eq e x
unfolding native_edge_eq
same_source e x k = ground arith

same_target :
    (e x : NativeEdge) (k : ℕ)
    → (e.target == k) && native_edge_eq e x ≡ (x.target == k) && native_edge_eq e x
unfolding native_edge_eq
same_target e x k = ground arith

module _ (edges : NativeEdge → Bool) (g : NativeFlowGraph) (r : Represents edges g)
    (e : NativeEdge) where
  -- `AddEdge` adds the edge to the set, in both maps.
  pub add_edge-Represents : Represents (λ x. native_edge_eq e x || edges x) (add_edge g e)
  unfolding add_edge
  add_edge-Represents = record {
    outgoing_sorted = change-IsSorted e.source [] (insert e) g.outgoing_edges r.outgoing_sorted;
    incoming_sorted = change-IsSorted e.target [] (insert e) g.incoming_edges r.incoming_sorted;
    outgoing = λ k x.
        has-change g.outgoing_edges e.source k e x r.outgoing_sorted
        ∙ ground (arith, same_source e x k, r.outgoing k x);
    incoming = λ k x.
        has-change g.incoming_edges e.target k e x r.incoming_sorted
        ∙ ground (arith, same_target e x k, r.incoming k x);
  }

  -- `RemoveEdge` takes the edge out of the set, in both maps, and tells whether it was there.
  pub remove_edge-Represents :
      Represents (λ x. not (native_edge_eq e x) && edges x) (remove_edge g e).0
      × ((remove_edge g e).1 ≡ edges e)
  unfolding remove_edge
  remove_edge-Represents = (
    record {
      outgoing_sorted = remove_at-IsSorted g.outgoing_edges e.source e r.outgoing_sorted;
      incoming_sorted = remove_at-IsSorted g.incoming_edges e.target e r.incoming_sorted;
      outgoing = λ k x.
          has-remove_at g.outgoing_edges e.source k e x r.outgoing_sorted
          ∙ ground (arith, same_source e x k, r.outgoing k x);
      incoming = λ k x.
          has-remove_at g.incoming_edges e.target k e x r.incoming_sorted
          ∙ ground (arith, same_target e x k, r.incoming k x);
    },
    rw (found_at-has g.outgoing_edges e.source e, found_at-has g.incoming_edges e.target e)
        (rw (r.outgoing e.source e, r.incoming e.target e) (ground arith)),
  )
