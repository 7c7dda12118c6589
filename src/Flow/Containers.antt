-- ===== src/Flow/Containers.antt =====
-- `std::map` with integer keys and `std::set`, as the flow graphs use them: sequences in ascending
-- order, which the loops over them go through.
pub mod Laws
use reil.Base.{
  ℕ, ◌<◌, ◌≡◌, Bool, true, false, Option, none, some, List, [], ◌∷◌, ltb, leb, ◌==◌, if◌then◌else◌,
}

module _ {V : Type 0} where
  unfoldable pub find : ℕ → List (ℕ × V) → Option V
  find k [] = none
  find k ((j, v) ∷ m) = if j == k then some v else find k m

  -- `m[k] = f(m[k])`, where `m[k]` makes an entry with the value `d` if there is none.
  unfoldable pub change : ℕ → V → (V → V) → List (ℕ × V) → List (ℕ × V)
  change k d f [] = (k, f d) ∷ []
  change k d f ((j, v) ∷ m) =
      if ltb k j
      then (k, f d) ∷ (j, v) ∷ m
      else if j == k
      then (k, f v) ∷ m
      else (j, v) ∷ change k d f m

  -- `m.erase(m.find(k))`
  unfoldable pub erase_key : ℕ → List (ℕ × V) → List (ℕ × V)
  erase_key k [] = []
  erase_key k ((j, v) ∷ m) = if j == k then m else (j, v) ∷ erase_key k m

  -- The key of `m.lower_bound(k)`, unless that is the end.
  unfoldable pub lower_bound : ℕ → List (ℕ × V) → Option ℕ
  lower_bound k [] = none
  lower_bound k ((j, v) ∷ m) = if leb k j then some j else lower_bound k m

  -- Every key is above `k`.
  abbrev pub IsAbove : ℕ → List (ℕ × V) → Type 0
  IsAbove k [] = Unit
  IsAbove k ((j, v) ∷ m) = (k < j) × IsAbove k m

  -- The keys ascend.
  abbrev pub IsSorted : List (ℕ × V) → Type 0
  IsSorted [] = Unit
  IsSorted ((k, v) ∷ m) = IsAbove k m × IsSorted m

-- The order of a set's elements, `operator<`, and `==`, with the laws that a set needs.
pub record Order (A : Type 0) : Type 0 where
  pub less : A → A → Bool
  pub same : A → A → Bool
  pub same_iff_eq : (a b : A) → (same a b ≡ true → a ≡ b) × (a ≡ b → same a b ≡ true)
  pub total : (a b : A) → less a b ≡ false → less b a ≡ false → same a b ≡ true

module _ {A : Type 0} ⦃o : Order A⦄ where
  unfoldable pub member : A → List A → Bool
  member e [] = false
  member e (x ∷ s) = if o.same x e then true else member e s

  unfoldable pub insert : A → List A → List A
  insert e [] = e ∷ []
  insert e (x ∷ s) = if o.less e x then e ∷ x ∷ s else if o.less x e then x ∷ insert e s else x ∷ s

  -- `erase` of a value takes away every element that is equal to it.
  unfoldable pub erase : A → List A → List A
  erase e [] = []
  erase e (x ∷ s) = if o.same x e then erase e s else x ∷ erase e s
