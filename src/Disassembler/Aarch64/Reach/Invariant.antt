-- ===== src/Disassembler/Aarch64/Reach/Invariant.antt =====
-- What holds of the queue and the visited addresses before each round of the loop.
use reil.Base.{
  ℕ, ◌<◌, ◌^◌, ◌≡◌, refl, sym, ap, true, false, ◌||◌, ◌==◌, ==_iff, ==_refl, arith, List, [], ◌∷◌,
  All, inl, inr, Bool-cases,
}
use mathlib.Core.Path.{subst}
use reil.MemoryImage.{MemoryImage}
use reil.Flow.Containers.{member, insert}
use reil.Flow.Containers.Laws.{member-insert}
use reil.Disassembler.Aarch64.Addresses.{address_order, insert_all}
use reil.Disassembler.Aarch64.Addresses.Laws.{
  IsAscending, insert-IsAscending, member-insert_all, insert_all-All,
}
use reil.Disassembler.Aarch64.Reach.{Flows, Reaches}
use reil.Disassembler.Aarch64.Reach.Instruction.{IsNext}

module _ (image : MemoryImage) (start : ℕ) where
  pub record IsInvariant (queue visited : List ℕ) : Type 0 where
    pub sound : (a : ℕ) → member a visited ≡ true → Reaches image start a
    pub pending : (a : ℕ) → member a queue ≡ true → Reaches image start a
    pub closed :
        (a b : ℕ)
        → member a visited ≡ true
        → Flows image a b
        → (member b visited || member b queue) ≡ true
    pub started : (member start visited || member start queue) ≡ true
    pub ascending : IsAscending 0 (2 ^ 64) visited
    pub in_range : All (λ a. a < 2 ^ 64) queue

  at_head : (a x : ℕ) (queue : List ℕ) → member x (a ∷ queue) ≡ (a == x) || member x queue
  unfolding member
  at_head a x queue = ground arith

  no_member : (x : ℕ) → member x [] ≡ false
  unfolding member
  no_member x = refl

  -- An address that has been visited leaves the queue.
  pub skip-IsInvariant :
      (a : ℕ) (queue visited : List ℕ)
      → member a visited ≡ true
      → IsInvariant (a ∷ queue) visited
      → IsInvariant queue visited
  skip-IsInvariant a queue visited old i =
      let settled : (b : ℕ)
          → (member b visited || member b (a ∷ queue)) ≡ true
          → (member b visited || member b queue) ≡ true =
        λ b h. elim (Bool-cases (a == b)) [
          | inl same ↦ ground (arith, ap (λ x. member x visited) ((==_iff a b).0 same))
          | inr other ↦ ground (arith, at_head a b queue)
        ] in
      record {
        sound = i.sound;
        pending = λ b h. i.pending b (ground (arith, at_head a b queue));
        closed = λ b c h f. settled c (i.closed b c h f);
        started = settled start i.started;
        ascending = i.ascending;
        in_range = i.in_range.1;
      }

  -- An address that has not been visited is, and what follows it is queued.
  pub visit-IsInvariant :
      (a : ℕ) (queue visited next : List ℕ)
      → IsNext (Flows image a) next
      → IsInvariant (a ∷ queue) visited
      → IsInvariant (insert_all next queue) (insert a visited)
  visit-IsInvariant a queue visited next n i =
      let here : Reaches image start a =
        i.pending a (ground (arith, at_head a a queue, ==_refl a)) in
      let settled : (b : ℕ)
          → (member b visited || member b (a ∷ queue)) ≡ true
          → (member b (insert a visited) || member b (insert_all next queue)) ≡ true =
        λ b h.
          ground
            (arith, at_head a b queue, member-insert a b visited, member-insert_all b next queue) in
      record {
        sound = λ b h. elim (Bool-cases (a == b)) [
          | inl same ↦ subst (λ x. Reaches image start x) ((==_iff a b).0 same) here
          | inr other ↦ i.sound b (ground (arith, member-insert a b visited))
        ];
        pending = λ b h. elim (Bool-cases (member b next)) [
          | inl new ↦ Reaches.then a b here ((n.members b).0 new)
          | inr old ↦
              i.pending b (ground (arith, at_head a b queue, member-insert_all b next queue))
        ];
        closed = λ b c h f. elim (Bool-cases (a == b)) [
          | inl same ↦
              let follows : member c next ≡ true =
                (n.members c).1 (subst (λ x. Flows image x c) (sym ((==_iff a b).0 same)) f) in
              ground (arith, member-insert_all c next queue)
          | inr other ↦ settled c (i.closed b c (ground (arith, member-insert a b visited)) f)
        ];
        started = settled start i.started;
        ascending = insert-IsAscending 0 (2 ^ 64) a visited (omega arith) i.in_range.0 i.ascending;
        in_range = insert_all-All (λ x. x < 2 ^ 64) next queue n.in_range i.in_range.1;
      }

  -- At the end, with an empty queue, the visited addresses are those that can be reached.
  pub done-IsInvariant :
      (visited : List ℕ)
      → IsInvariant [] visited
      → (a : ℕ) → Reaches image start a
      → member a visited ≡ true
  done-IsInvariant visited i _ Reaches.here = ground (arith, no_member start)
  done-IsInvariant visited i b (Reaches.then a _ r f) =
      ground (arith, no_member b, i.closed a b (done-IsInvariant visited i a r) f)

  pub first-IsInvariant : start < 2 ^ 64 → IsInvariant (start ∷ []) []
  first-IsInvariant lt = record {
    sound = λ a h. absurd (ground (arith, no_member a));
    pending = λ a h. elim (Bool-cases (start == a)) [
      | inl same ↦ subst (λ x. Reaches image start x) ((==_iff start a).0 same) Reaches.here
      | inr other ↦ absurd (ground (arith, at_head start a [], no_member a))
    ];
    closed = λ a b h f. absurd (ground (arith, no_member a));
    started = ground (arith, at_head start start [], ==_refl start);
    ascending = tt;
    in_range = (lt, tt);
  }
