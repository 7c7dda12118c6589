-- ===== src/Flow/Containers/Laws.antt =====
-- Lookup behind each change of a map or a set.
use reil.Base.{
  ℕ, ◌<◌, ◌≤◌, ◌≡◌, refl, sym, ap, ◌∙◌, true, not, ◌&&◌, ◌||◌, Option, none, some, List, [], ◌∷◌,
  ◌==◌, if◌then◌else◌, arith,
}
use reil.Flow.Containers.{find, change, erase_key, IsAbove, IsSorted, Order, member, insert, erase}

-- `it->second` of an iterator, or the value that `[]` makes.
abbrev pub value_or : {V : Type 0} → Option V → V → V
value_or (some v) d = v
value_or none d = d

module _ {V : Type 0} where
  find-IsAbove : (k j : ℕ) (m : List (ℕ × V)) → IsAbove k m → j ≤ k → find j m ≡ none
  unfolding find
  find-IsAbove k j [] h le = refl
  find-IsAbove k j ((i, v) ∷ m) h le = ground (arith, find-IsAbove k j m)

  IsAbove-trans : (k j : ℕ) (m : List (ℕ × V)) → IsAbove k m → j ≤ k → IsAbove j m
  IsAbove-trans k j [] h le = tt
  IsAbove-trans k j ((i, v) ∷ m) h le = (omega arith, IsAbove-trans k j m h.1 le)

  pub find-change :
      (k j : ℕ) (d : V) (f : V → V) (m : List (ℕ × V))
      → IsSorted m
      → find j (change k d f m) ≡ (if k == j then some (f (value_or (find k m) d)) else find j m)
  unfolding find change
  find-change k j d f [] s = ground arith
  find-change k j d f ((i, v) ∷ m) s = ground (arith, find-change k j d f m, find-IsAbove i k m s.0)

  change-IsAbove :
      (k j : ℕ) (d : V) (f : V → V) (m : List (ℕ × V))
      → IsAbove j m
      → j < k
      → IsAbove j (change k d f m)
  unfolding change
  change-IsAbove k j d f [] h lt = (lt, tt)
  change-IsAbove k j d f ((i, v) ∷ m) h lt = ground (arith, change-IsAbove k j d f m h.1 lt)

  pub change-IsSorted :
      (k : ℕ) (d : V) (f : V → V) (m : List (ℕ × V)) → IsSorted m → IsSorted (change k d f m)
  unfolding change
  change-IsSorted k d f [] s = (tt, tt)
  change-IsSorted k d f ((i, v) ∷ m) s =
      ground
        (arith, IsAbove-trans i k m s.0, change-IsAbove k i d f m s.0, change-IsSorted k d f m s.1)

  erase_key-IsAbove : (k j : ℕ) (m : List (ℕ × V)) → IsAbove j m → IsAbove j (erase_key k m)
  unfolding erase_key
  erase_key-IsAbove k j [] h = tt
  erase_key-IsAbove k j ((i, v) ∷ m) h = ground (arith, erase_key-IsAbove k j m h.1)

  pub erase_key-IsSorted : (k : ℕ) (m : List (ℕ × V)) → IsSorted m → IsSorted (erase_key k m)
  unfolding erase_key
  erase_key-IsSorted k [] s = tt
  erase_key-IsSorted k ((i, v) ∷ m) s =
      ground (arith, erase_key-IsAbove k i m s.0, erase_key-IsSorted k m s.1)

  pub find-erase_key :
      (k j : ℕ) (m : List (ℕ × V))
      → IsSorted m
      → find j (erase_key k m) ≡ (if k == j then none else find j m)
  unfolding find erase_key
  find-erase_key k j [] s = ground arith
  find-erase_key k j ((i, v) ∷ m) s =
      ground (arith, find-erase_key k j m s.1, find-IsAbove i j m s.0)

module _ {A : Type 0} ⦃o : Order A⦄ where
  same_congr : {a b : A} (x : A) → o.same a b ≡ true → o.same a x ≡ o.same b x
  same_congr {a} {b} x e = ap (λ (c : A). o.same c x) ((o.same_iff_eq a b).0 e)

  same_meet : (a b x : A) → o.same a x ≡ true → o.same b x ≡ true → o.same b a ≡ true
  same_meet a b x p q =
      (o.same_iff_eq b a).1 ((o.same_iff_eq b x).0 q ∙ sym ((o.same_iff_eq a x).0 p))

  pub member-insert : (e x : A) (s : List A) → member x (insert e s) ≡ o.same e x || member x s
  unfolding member insert
  member-insert e x [] = ground arith
  member-insert e x (y ∷ s) =
      ground (arith, member-insert e x s, o.total e y, same_congr {a = e} {b = y} x)

  pub member-erase : (e x : A) (s : List A) → member x (erase e s) ≡ not (o.same e x) && member x s
  unfolding member erase
  member-erase e x [] = ground arith
  member-erase e x (y ∷ s) =
      ground (arith, member-erase e x s, same_congr {a = y} {b = e} x, same_meet e y x)
