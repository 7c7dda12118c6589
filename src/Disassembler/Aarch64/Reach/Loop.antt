-- ===== src/Disassembler/Aarch64/Reach/Loop.antt =====
-- The loop of `Disassemble` ends, and has then visited the addresses that control may reach.
use reil.Base.{
  ℕ, zero, suc, ◌+◌, ◌-◌, ◌*◌, ◌≤◌, ◌^◌, ◌≡◌, refl, true, false, arith, List, [], ◌∷◌, length, inl,
  inr, Bool-cases, ok, Returns, ◌↔◌,
}
use reil.MemoryImage.{MemoryImage}
use reil.Flow.Containers.{member, insert}
use reil.Flow.Native.{NativeFlowGraph}
use reil.Disassembler.Aarch64.{disassemble_instruction, Search, visit, search_from, insert_all}
use reil.Disassembler.Aarch64.Addresses.{address_order}
use reil.Disassembler.Aarch64.Addresses.Laws.{
  length-IsAscending, length-insert_new, length-insert_all,
}
use reil.Disassembler.Aarch64.Reach.{Reaches}
use reil.Disassembler.Aarch64.Reach.Instruction.{disassemble_instruction-IsNext}
use reil.Disassembler.Aarch64.Reach.Invariant.{
  IsInvariant, skip-IsInvariant, visit-IsInvariant, done-IsInvariant,
}

-- The rounds that are left at most: an address that has not been visited adds two to the queue.
abbrev pub rounds : List ℕ → List ℕ → ℕ
rounds queue visited = 3 * (2 ^ 64 - length visited) + length queue

visit-old :
    (image : MemoryImage) (queue visited : List ℕ) (g : NativeFlowGraph) (a : ℕ)
    → member a visited ≡ true
    → visit image (record { queue = queue; visited = visited; graph = g }) a
      ≡ ok (record { queue = queue; visited = visited; graph = g })
unfolding visit
visit-old image queue visited g a old = rw old refl

visit-new :
    (image : MemoryImage) (queue visited : List ℕ) (g : NativeFlowGraph) (a : ℕ)
    (r : NativeFlowGraph × List ℕ)
    → member a visited ≡ false
    → disassemble_instruction image g a ≡ ok r
    → visit image (record { queue = queue; visited = visited; graph = g }) a
      ≡ ok (record { queue = insert_all r.1 queue; visited = insert a visited; graph = r.0 })
unfolding visit
visit-new image queue visited g a r new e = rw (new, e) refl

-- A property of the visited addresses and the graph that every instruction keeps.
module _ (image : MemoryImage) (start : ℕ) (K : List ℕ → NativeFlowGraph → Type 0)
    (keeps : (a : ℕ) (visited : List ℕ) (g : NativeFlowGraph) (r : NativeFlowGraph × List ℕ)
      → K visited g
      → disassemble_instruction image g a ≡ ok r
      → K (insert a visited) r.0) where
  abbrev pub IsFound : Search → Type 0
  IsFound s = ((a : ℕ) → (member a s.visited ≡ true) ↔ Reaches image start a) × K s.visited s.graph

  pub search_from-IsFound :
      (fuel : ℕ) (queue visited : List ℕ) (g : NativeFlowGraph)
      → IsInvariant image start queue visited
      → K visited g
      → rounds queue visited ≤ fuel
      → Returns (search_from fuel image queue visited g) IsFound
  unfolding search_from
  search_from-IsFound fuel [] visited g i k enough = (
    record { queue = []; visited = visited; graph = g },
    refl,
    (λ a. (i.sound a, done-IsInvariant image start visited i a), k),
  )
  search_from-IsFound zero (a ∷ queue) visited g i k enough = absurd (omega arith)
  search_from-IsFound (suc fuel) (a ∷ queue) visited g i k enough =
      elim (Bool-cases (member a visited)) [
        | inl old ↦ rw (visit-old image queue visited g a old) (
            search_from-IsFound fuel queue visited g
              (skip-IsInvariant image start a queue visited old i) k (omega arith))
        | inr new ↦
            let step = disassemble_instruction-IsNext image g a in
            let next = visit-IsInvariant image start a queue visited step.0.1 step.2 i in
            rw (visit-new image queue visited g a step.0 new step.1) (
              search_from-IsFound fuel (insert_all step.0.1 queue) (insert a visited) step.0.0 next
                (keeps a visited g step.0 k step.1)
                (omega (
                  arith,
                  length-insert_all step.0.1 queue,
                  length-insert_new a visited new,
                  step.2.few,
                  length-IsAscending 0 (2 ^ 64) (insert a visited) (omega arith) next.ascending,
                )))
      ]
