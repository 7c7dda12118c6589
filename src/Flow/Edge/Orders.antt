-- ===== src/Flow/Edge/Orders.antt =====
-- The comparisons of nodes and edges are strict total orders, as the sets and maps need.
use reil.Base.{◌≡◌, Bool, true, false, ltb, ◌==◌, if◌then◌else◌, ◌&&◌, arith}
use reil.Flow.Containers.{Order}
use reil.Flow.Edge.{
  NativeEdgeKind, NativeEdge, native_kind_number, native_edge_eq, native_edge_lt, node_eq, node_lt,
  EdgeKind, kind_number, edge_eq, edge_lt,
}

-- A strict total order whose ties are the equal values.
pub record IsTotalOrder {A : Type 0} (less same : A → A → Bool) : Type 0 where
  pub irreflexive : (a : A) → less a a ≡ false
  pub transitive : (a b c : A) → less a b ≡ true → less b c ≡ true → less a c ≡ true
  pub total : (a b : A) → less a b ≡ false → less b a ≡ false → same a b ≡ true
  pub same_iff_eq : (a b : A) → (same a b ≡ true → a ≡ b) × (a ≡ b → same a b ≡ true)

ℕ-IsTotalOrder : IsTotalOrder ltb ◌==◌
ℕ-IsTotalOrder = record {
  irreflexive = λ a. ground arith;
  transitive = λ a b c p q. ground arith;
  total = λ a b p q. ground arith;
  same_iff_eq = λ a b. (λ p. ground arith, λ p. ground arith);
}

-- Comparison by a first component, and by `rest` where that is a tie.
abbrev first_by : {A : Type 0} → (A → A → Bool) → A → A → Bool → Bool
first_by less a b rest = if less a b then true else if less b a then false else rest

module _ {A : Type 0} {less same : A → A → Bool} (o : IsTotalOrder less same) where
  first_by-irreflexive : (a : A) (p : Bool) → p ≡ false → first_by less a a p ≡ false
  first_by-irreflexive a p e = ground (arith, o.irreflexive a)

  first_by-transitive :
      (a b c : A) (p q r : Bool)
      → (p ≡ true → q ≡ true → r ≡ true)
      → first_by less a b p ≡ true
      → first_by less b c q ≡ true
      → first_by less a c r ≡ true
  first_by-transitive a b c p q r rest x y = ground (
    arith,
    o.transitive a b c,
    o.total a b,
    o.total b c,
    (o.same_iff_eq a b).0,
    (o.same_iff_eq b c).0,
    o.irreflexive a,
    rest,
  )

  first_by-total :
      (a b : A) (p q s : Bool)
      → (p ≡ false → q ≡ false → s ≡ true)
      → first_by less a b p ≡ false
      → first_by less b a q ≡ false
      → same a b && s ≡ true
  first_by-total a b p q s rest x y = ground (arith, o.total a b, o.total b a, rest)

native_kind_injective : (k l : NativeEdgeKind) → native_kind_number k ≡ native_kind_number l → k ≡ l
native_kind_injective k l e = ground arith

kind_injective : (k l : EdgeKind) → kind_number k ≡ kind_number l → k ≡ l
kind_injective k l e = ground arith

-- `NativeEdge`s are ordered by source, target and kind.
pub native_edge-IsTotalOrder : IsTotalOrder native_edge_lt native_edge_eq
unfolding native_edge_lt native_edge_eq
native_edge-IsTotalOrder = record {
  irreflexive = λ a.
      first_by-irreflexive n a.source _
        (first_by-irreflexive n a.target _ (n.irreflexive (native_kind_number a.kind)));
  transitive = λ a b c.
      first_by-transitive n a.source b.source c.source _ _ _
        (first_by-transitive n a.target b.target c.target _ _ _ (n.transitive _ _ _));
  total = λ a b.
      first_by-total n a.source b.source _ _ _
        (first_by-total n a.target b.target _ _ _ (n.total _ _));
  same_iff_eq =
      λ a b. (λ p. ground (arith, native_kind_injective a.kind b.kind), λ p. ground arith);
}
  where
    n : IsTotalOrder ltb ◌==◌
    n = ℕ-IsTotalOrder

-- `Node`s are ordered by address and offset.
pub node-IsTotalOrder : IsTotalOrder node_lt node_eq
unfolding node_lt node_eq
node-IsTotalOrder = record {
  irreflexive = λ a. first_by-irreflexive n a.address _ (n.irreflexive a.offset);
  transitive =
      λ a b c. first_by-transitive n a.address b.address c.address _ _ _ (n.transitive _ _ _);
  total = λ a b. first_by-total n a.address b.address _ _ _ (n.total _ _);
  same_iff_eq = λ a b. (λ p. ground arith, λ p. ground arith);
}
  where
    n : IsTotalOrder ltb ◌==◌
    n = ℕ-IsTotalOrder

-- `Edge`s are ordered by source, target and kind.
pub edge-IsTotalOrder : IsTotalOrder edge_lt edge_eq
unfolding edge_lt edge_eq
edge-IsTotalOrder = record {
  irreflexive = λ a.
      first_by-irreflexive m a.source _
        (first_by-irreflexive m a.target _ (ℕ-IsTotalOrder.irreflexive (kind_number a.kind)));
  transitive = λ a b c.
      first_by-transitive m a.source b.source c.source _ _ _
        (first_by-transitive m a.target b.target c.target _ _ _ (ℕ-IsTotalOrder.transitive _ _ _));
  total = λ a b.
      first_by-total m a.source b.source _ _ _
        (first_by-total m a.target b.target _ _ _ (ℕ-IsTotalOrder.total _ _));
  same_iff_eq = λ a b. (
    λ p. ground (
      arith,
      kind_injective a.kind b.kind,
      (m.same_iff_eq a.source b.source).0,
      (m.same_iff_eq a.target b.target).0,
    ),
    λ p. ground (arith, (m.same_iff_eq a.source b.source).1, (m.same_iff_eq a.target b.target).1),
  );
}
  where
    m : IsTotalOrder node_lt node_eq
    m = node-IsTotalOrder

instance abbrev pub native_edge_order : Order NativeEdge
native_edge_order = record {
  less = native_edge_lt;
  same = native_edge_eq;
  same_iff_eq = native_edge-IsTotalOrder.same_iff_eq;
  total = native_edge-IsTotalOrder.total;
}
