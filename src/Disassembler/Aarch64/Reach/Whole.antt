-- ===== src/Disassembler/Aarch64/Reach/Whole.antt =====
-- `Disassemble` as a whole.
use reil.Base.{
  ℕ, ◌+◌, ◌*◌, ◌<◌, ◌^◌, ◌≡◌, sym, ap, ◌∙◌, ◌⊎◌, inl, inr, Bool, true, arith, List, [], ◌∷◌, ◌==◌,
  ==_iff, Bool-cases, Run, ok, fault, ◌>>=◌, Returns, ◌↔◌,
}
use mathlib.Core.Path.{subst}
use reil.MemoryImage.{MemoryImage}
use reil.Flow.Containers.{member, insert}
use reil.Flow.Containers.Laws.{member-insert}
use reil.Flow.Edge.{NativeEdge}
use reil.Flow.Native.{NativeFlowGraph}
use reil.Flow.Native.Edges.{Represents}
use reil.Disassembler.Aarch64.{disassemble_instruction, search_from, disassemble}
use reil.Disassembler.Aarch64.Addresses.{address_order}
use reil.Disassembler.Aarch64.Reach.{Reaches}
use reil.Disassembler.Aarch64.Reach.Edges.{
  EdgeOf, EdgeOfAny, Extends, nothing-Extends, then-Extends, fewer-Extends,
}
use reil.Disassembler.Aarch64.Reach.Extended.{disassemble_instruction-Extends}
use reil.Disassembler.Aarch64.Reach.Invariant.{first-IsInvariant}
use reil.Disassembler.Aarch64.Reach.Loop.{search_from-IsFound}

ok-injective {ℓ} : {A : Type ℓ} {x y : A} → ok x ≡ ok y → x ≡ y
ok-injective {x = x} e = ap (λ r. elim r [ ok z ↦ z | fault why ↦ x ]) e

bind-Returns {ℓ κ} :
    {A B : Type ℓ} {P : A → Type κ} {Q : B → Type κ} (run : Run A) (f : A → B)
    → Returns run P
    → ((x : A) → P x → Q (f x))
    → Returns (run >>= λ x. ok (f x)) Q
bind-Returns {Q = Q} run f r step = (f r.0, ap (λ m. m >>= λ x. ok (f x)) r.1, step r.0 r.2)

no_member : (x : ℕ) → member x [] ≡ true → ⊥
unfolding member
no_member x h = ground arith

module _ (image : MemoryImage) (before : NativeEdge → Bool) where
  pub Recorded : List ℕ → NativeFlowGraph → Type 0
  Recorded visited g = Extends before (EdgeOfAny image (λ a. member a visited ≡ true)) g

  earlier_or_new :
      (a : ℕ) (visited : List ℕ) (edge : NativeEdge)
      → EdgeOfAny image (λ b. member b (insert a visited) ≡ true) edge
      → EdgeOfAny image (λ b. member b visited ≡ true) edge ⊎ EdgeOf image a edge
  earlier_or_new a visited edge h = elim (Bool-cases (a == h.0)) [
    | inl same ↦ inr (subst (λ b. EdgeOf image b edge) (sym ((==_iff a h.0).0 same)) h.2)
    | inr other ↦ inl (h.0, ground (arith, h.1, member-insert a h.0 visited), h.2)
  ]

  visit-Recorded :
      (a : ℕ) (visited : List ℕ) (g : NativeFlowGraph) (r : NativeFlowGraph × List ℕ)
      → Recorded visited g
      → disassemble_instruction image g a ≡ ok r
      → Recorded (insert a visited) r.0
  unfolding Recorded
  visit-Recorded a visited g r x e =
      let step = disassemble_instruction-Extends image x.edges g a x.represents in
      subst (λ s. Extends before (EdgeOfAny image (λ b. member b (insert a visited) ≡ true)) s.0)
        (ok-injective (sym step.1 ∙ e))
        (fewer-Extends before _ _ _ (then-Extends before _ _ _ _ x step.2)
          (earlier_or_new a visited))

  nothing-Recorded : (g : NativeFlowGraph) → Represents before g → Recorded [] g
  unfolding Recorded
  nothing-Recorded g r =
      fewer-Extends before (λ e. ⊥) _ g (nothing-Extends before g r) (λ e h. no_member h.0 h.1)

  module _ (g : NativeFlowGraph) (start : ℕ) (r : Represents before g) (lt : start < 2 ^ 64) where
    -- With the fuel of `disassemble`, the loop ends; it has then visited the addresses that control
    -- may reach from the start, and no others.
    pub search_from-Reaches :
        Returns
          (search_from (3 * 2 ^ 64 + 1) image (start ∷ []) [] g)
          (λ s. (a : ℕ) → (member a s.visited ≡ true) ↔ Reaches image start a)
    search_from-Reaches =
        let found =
          search_from-IsFound image start Recorded visit-Recorded (3 * 2 ^ 64 + 1) (start ∷ []) [] g
            (first-IsInvariant image start lt) (nothing-Recorded g r) (omega arith) in
        (found.0, found.1, found.2.0)

    -- `Disassemble` returns, on any image, for a start of 64 bits and a graph with sorted maps that
    -- agree; it keeps the edges of the graph, and adds the edges of the instruction at each address
    -- that control may reach from the start.
    pub disassemble-Extends :
        Returns (disassemble image g start) (Extends before (EdgeOfAny image (Reaches image start)))
    unfolding disassemble Recorded
    disassemble-Extends =
        let found =
          search_from-IsFound image start Recorded visit-Recorded (3 * 2 ^ 64 + 1) (start ∷ []) [] g
            (first-IsInvariant image start lt) (nothing-Recorded g r) (omega arith) in
        bind-Returns (search_from (3 * 2 ^ 64 + 1) image (start ∷ []) [] g) (λ s. s.graph) found
          (λ s h. fewer-Extends before _ _ s.graph h.1 (λ e k. (k.0, (h.0 k.0).1 k.1, k.2)))
