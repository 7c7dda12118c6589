-- ===== src/Flow/Native/Blocks.antt =====
-- `BasicBlockStart` and `BasicBlockEnd` find the basic block that holds a node.
pub mod Keys
use mathlib.Core.Path.{subst}
use mathlib.Core.List.{reverse, reverse_aux}
use reil.Base.{
  ℕ, ◌+◌, ◌-◌, ◌^◌, ◌≤◌, ◌<◌, ◌≡◌, refl, sym, ap, ◌∙◌, Bool, true, false, not, ◌&&◌, ◌||◌, Option,
  none, some, List, [], ◌∷◌, ltb, leb, ◌==◌, if◌then◌else◌, inl, inr, Bool-cases, Option-cases,
  ==_iff, arith, ◌⊎◌,
}
use reil.Flow.Containers.{lower_bound, IsAbove, IsSorted}
use reil.Flow.Edge.{NativeEdge}
use reil.Flow.Native.{
  EdgeMap, NativeFlowGraph, block_end, find_block, basic_block_start, basic_block_end,
}
use reil.Flow.Native.Blocks.Keys.{
  has_key, IsBelow, IsDescending, has_key-IsBelow, lower_bound-none, lower_bound-some,
  lower_bound-first, IsBelow-trans, reverse-IsDescending, has_key-reverse, IsBelow-reverse_aux,
}

-- The addresses from `first` to `last` are a basic block that holds `node`: edges come in at
-- `first` and at no later address of the block, and go out at `last` and at no earlier one.
pub record Block (outgoing : EdgeMap) (node : ℕ) (incoming : EdgeMap) (next first last : ℕ)
    : Type 0 where
  pub from : first ≤ node
  pub upto : node ≤ last
  pub below : last < next
  pub enters : has_key first incoming ≡ true
  pub leaves : has_key last outgoing ≡ true
  pub inside_enters : (k : ℕ) → first < k → k ≤ last → has_key k incoming ≡ false
  pub inside_leaves : (k : ℕ) → first ≤ k → k < last → has_key k outgoing ≡ false

-- The outcome of the search: a block, or none where there is none.
abbrev pub Found : EdgeMap → ℕ → EdgeMap → ℕ → Option (ℕ × ℕ) → Type 0
Found outgoing node incoming next (some (first, last)) =
    Block outgoing node incoming next first last
Found outgoing node incoming next none =
    (first last : ℕ) → ¬ Block outgoing node incoming next first last

-- The part of a `Block` that `block_end` looks for.
record Ends (outgoing : EdgeMap) (start node next last : ℕ) : Type 0 where
  ends_after : start ≤ last
  ends_upto : node ≤ last
  ends_below : last < next
  ends_leaves : has_key last outgoing ≡ true
  ends_inside : (k : ℕ) → start ≤ k → k < last → has_key k outgoing ≡ false

Ended : EdgeMap → ℕ → ℕ → ℕ → Option ℕ → Type 0
Ended outgoing start node next (some last) = Ends outgoing start node next last
Ended outgoing start node next none = (last : ℕ) → ¬ Ends outgoing start node next last

-- Only the first key that is not below `start` can end the block.
Ends-unique :
    (outgoing : EdgeMap) (start node next last b : ℕ)
    → IsSorted outgoing
    → lower_bound start outgoing ≡ some b
    → Ends outgoing start node next last
    → last ≡ b
Ends-unique outgoing start node next last b s e h =
    let at_b = lower_bound-some start b outgoing s e in
    ground (
      arith,
      h.ends_after,
      h.ends_leaves,
      at_b,
      h.ends_inside b at_b.1,
      lower_bound-first start b outgoing s e last h.ends_after,
    )

block_end-Ended :
    (outgoing : EdgeMap) (start node next : ℕ)
    → IsSorted outgoing
    → Ended outgoing start node next (block_end outgoing start node next)
unfolding block_end Ended
block_end-Ended outgoing start node next s = elim (Option-cases (lower_bound start outgoing)) [
  | inl missing ↦
      rw (missing, block_end)
        (λ last h.
          ground
            (arith, h.ends_leaves, lower_bound-none start outgoing s missing last h.ends_after))
  | inr (b, present) ↦
      let only : (last : ℕ) → Ends outgoing start node next last → last ≡ b =
        λ last. Ends-unique outgoing start node next last b s present in
      rw (present, block_end)
        (elim (Bool-cases (leb next b)) [
          | inl late ↦ rw late (λ last h. ground (arith, h.ends_below, only last h))
          | inr timely ↦ elim (Bool-cases (ltb b node)) [
            | inl before ↦ rw (timely, before) (λ last h. ground (arith, h.ends_upto, only last h))
            | inr holds ↦
                rw (timely, holds)
                  record {
                    ends_after = (lower_bound-some start b outgoing s present).1;
                    ends_upto = ground arith;
                    ends_below = ground arith;
                    ends_leaves = (lower_bound-some start b outgoing s present).0;
                    ends_inside = lower_bound-first start b outgoing s present;
                  }
          ]
        ])
]

module _ (outgoing : EdgeMap) (node : ℕ) (sorted : IsSorted outgoing) where
  -- A block of the remaining keys, when the last one is above `node`.
  Block-skip :
      (k : ℕ) (s : List NativeEdge) (m : EdgeMap) (next first last : ℕ)
      → node < k
      → k ≤ next
      → Block outgoing node m k first last
      → Block outgoing node ((k, s) ∷ m) next first last
  unfolding has_key
  Block-skip k s m next first last above within b = record {
    from = b.from;
    upto = b.upto;
    below = omega (arith, b.below);
    enters = ground (arith, b.enters);
    leaves = b.leaves;
    inside_enters = λ j after to. ground (arith, b.below, b.inside_enters j after to);
    inside_leaves = b.inside_leaves;
  }

  Block-unskip :
      (k : ℕ) (s : List NativeEdge) (m : EdgeMap) (next first last : ℕ)
      → node < k
      → Block outgoing node ((k, s) ∷ m) next first last
      → Block outgoing node m k first last
  unfolding has_key
  Block-unskip k s m next first last above b = record {
    from = b.from;
    upto = b.upto;
    below = ground (arith, b.from, b.inside_enters k);
    enters = ground (arith, b.from, b.enters);
    leaves = b.leaves;
    inside_enters = λ j after to. ground (arith, b.inside_enters j after to);
    inside_leaves = b.inside_leaves;
  }

  -- Only the last key that is not above `node` can start the block.
  Block-start :
      (k : ℕ) (s : List NativeEdge) (m : EdgeMap) (next first last : ℕ)
      → IsBelow k m
      → k ≤ node
      → Block outgoing node ((k, s) ∷ m) next first last
      → first ≡ k
  unfolding has_key
  Block-start k s m next first last d le b =
      ground (arith, b.upto, b.enters, b.inside_enters k, has_key-IsBelow first k m d)

  Block-Ends :
      (k : ℕ) (m : EdgeMap) (next last : ℕ)
      → Block outgoing node m next k last
      → Ends outgoing k node next last
  Block-Ends k m next last b = record {
    ends_after = omega (arith, b.from, b.upto);
    ends_upto = b.upto;
    ends_below = b.below;
    ends_leaves = b.leaves;
    ends_inside = b.inside_leaves;
  }

  Ends-Block :
      (k : ℕ) (s : List NativeEdge) (m : EdgeMap) (next last : ℕ)
      → IsBelow k m
      → k ≤ node
      → Ends outgoing k node next last
      → Block outgoing node ((k, s) ∷ m) next k last
  unfolding has_key
  Ends-Block k s m next last d le h = record {
    from = le;
    upto = h.ends_upto;
    below = h.ends_below;
    enters = ground arith;
    leaves = h.ends_leaves;
    inside_enters = λ j after to. ground (arith, has_key-IsBelow j k m d);
    inside_leaves = h.ends_inside;
  }

  Found-start :
      (k : ℕ) (s : List NativeEdge) (m : EdgeMap) (next : ℕ) (o : Option ℕ)
      → IsBelow k m
      → k ≤ node
      → Ended outgoing k node next o
      → Found outgoing node ((k, s) ∷ m) next (elim o [ none ↦ none | some last ↦ some (k, last) ])
  unfolding Ended
  Found-start k s m next none d le h = λ first last b. h last (
      Block-Ends k ((k, s) ∷ m) next last (
        subst (λ (x : ℕ). Block outgoing node ((k, s) ∷ m) next x last)
          (Block-start k s m next first last d le b) b))
  Found-start k s m next (some last) d le h = Ends-Block k s m next last d le h

  Found-skip :
      (k : ℕ) (s : List NativeEdge) (m : EdgeMap) (next : ℕ) (o : Option (ℕ × ℕ))
      → node < k
      → k ≤ next
      → Found outgoing node m k o
      → Found outgoing node ((k, s) ∷ m) next o
  Found-skip k s m next none above within h =
      λ first last b. h first last (Block-unskip k s m next first last above b)
  Found-skip k s m next (some (first, last)) above within h =
      Block-skip k s m next first last above within h

  find_block-Found :
      (r : EdgeMap) (next : ℕ)
      → IsDescending r
      → IsBelow (next + 1) r
      → Found outgoing node r next (find_block outgoing node r next)
  unfolding find_block has_key
  find_block-Found [] next d within = λ first last b. ground (arith, b.enters)
  find_block-Found ((k, s) ∷ m) next d within = elim (Bool-cases (leb k node)) [
    | inl here ↦ rw here (
        Found-start k s m next (block_end outgoing k node next) d.0 (ground arith)
          (block_end-Ended outgoing k node next sorted))
    | inr above ↦ rw above (
        Found-skip k s m next (find_block outgoing node m k) (ground arith)
          (omega (arith, within.0))
          (find_block-Found m k d.1 (IsBelow-trans (k + 1) k m (omega arith) d.0)))
  ]

-- Whether `first` and `last` are what `BasicBlockStart` and `BasicBlockEnd` should return.
abbrev pub IsAnswer : NativeFlowGraph → ℕ → ℕ → ℕ → Type 0
IsAnswer g node first last =
    Block g.outgoing_edges node g.incoming_edges (2 ^ 64 - 1) first last
    ⊎ (((first ≡ 0) × (last ≡ 0))
        × ((f l : ℕ) → ¬ Block g.outgoing_edges node g.incoming_edges (2 ^ 64 - 1) f l))

Block-same_keys :
    (outgoing : EdgeMap) (node : ℕ) (r m : EdgeMap) (next first last : ℕ)
    → ((k : ℕ) → has_key k r ≡ has_key k m)
    → Block outgoing node r next first last
    → Block outgoing node m next first last
Block-same_keys outgoing node r m next first last same b = record {
  from = b.from;
  upto = b.upto;
  below = b.below;
  enters = sym (same first) ∙ b.enters;
  leaves = b.leaves;
  inside_enters = λ k after to. sym (same k) ∙ b.inside_enters k after to;
  inside_leaves = b.inside_leaves;
}

Found-IsAnswer :
    (g : NativeFlowGraph) (node : ℕ) (o : Option (ℕ × ℕ))
    → Found g.outgoing_edges node (reverse g.incoming_edges) (2 ^ 64 - 1) o
    → IsAnswer g node
        (elim o [ none ↦ 0 | some (first, last) ↦ first ])
        (elim o [ none ↦ 0 | some (first, last) ↦ last ])
Found-IsAnswer g node none h = inr (
  (refl, refl),
  λ f l b. h f l (
      Block-same_keys g.outgoing_edges node g.incoming_edges (reverse g.incoming_edges) _ f l
        (λ k. sym (has_key-reverse k g.incoming_edges)) b),
)
Found-IsAnswer g node (some (first, last)) h = inl (
    Block-same_keys g.outgoing_edges node (reverse g.incoming_edges) g.incoming_edges _ first last
      (λ k. has_key-reverse k g.incoming_edges) h)

-- In a graph whose maps' keys ascend and fit in 64 bits, `BasicBlockStart` and `BasicBlockEnd`
-- return the first and last address of one basic block that holds the node, or both return 0 and no
-- block holds it. (A block that ends at the last 64-bit address does not count.)
pub basic_block-IsAnswer :
    (g : NativeFlowGraph) (node : ℕ)
    → IsSorted g.outgoing_edges
    → IsSorted g.incoming_edges
    → IsBelow (2 ^ 64) g.incoming_edges
    → IsAnswer g node (basic_block_start g node) (basic_block_end g node)
unfolding basic_block_start basic_block_end
basic_block-IsAnswer g node out_sorted in_sorted fits = Found-IsAnswer g node _ (
    find_block-Found g.outgoing_edges node out_sorted (reverse g.incoming_edges) (2 ^ 64 - 1)
      (reverse-IsDescending g.incoming_edges in_sorted)
      (IsBelow-reverse_aux (2 ^ 64) g.incoming_edges [] fits tt))
