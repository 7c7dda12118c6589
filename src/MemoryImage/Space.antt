-- ===== src/MemoryImage/Space.antt =====
-- `AccessOk` below the end of the address space, and across it.
use native.Mathlib.Nat.{mod-eq_of_lt}
use reil.Base.{
  ℕ, ◌+◌, ◌<◌, ◌≤◌, ◌^◌, ◌≡◌, refl, ◌∙◌, ap, ap₂, Bool, true, false, not, ◌&&◌, ◌||◌, List, [], ◌∷◌,
  leb, length, arith,
}
use reil.MemoryImage.{Mapping, MemoryImage, contains, access_ok, readable}
use reil.MemoryImage.Access.{any_contains, all_grant, grants, access_ok-grants}

-- The mapping's bytes include the whole range.
abbrev pub covers : Mapping → ℕ → ℕ → Bool
covers m address size = leb m.address address && leb (address + size) (m.address + length m.bytes)

abbrev pub any_covers : ℕ → ℕ → List Mapping → Bool
any_covers address size [] = false
any_covers address size (m ∷ ms) = covers m address size || any_covers address size ms

-- Every mapping that includes the range grants what is asked for.
abbrev pub covers_grant : ℕ → ℕ → Bool → Bool → Bool → List Mapping → Bool
covers_grant address size r w x [] = true
covers_grant address size r w x (m ∷ ms) =
    (not (covers m address size) || grants r w x m) && covers_grant address size r w x ms

-- No mapping reaches the end of the address space.
abbrev pub InSpace : List Mapping → Type 0
InSpace [] = Unit
InSpace (m ∷ ms) = (m.address + length m.bytes < 2 ^ 64) × InSpace ms

contains-covers :
    (m : Mapping) (address size : ℕ)
    → address + size < 2 ^ 64
    → m.address + length m.bytes < 2 ^ 64
    → contains m address size ≡ covers m address size
unfolding contains
contains-covers m address size fits inside = rw (mod-eq_of_lt fits, mod-eq_of_lt inside) refl

any_contains-covers :
    (address size : ℕ) (ms : List Mapping)
    → address + size < 2 ^ 64
    → InSpace ms
    → any_contains address size ms ≡ any_covers address size ms
any_contains-covers address size [] fits inside = refl
any_contains-covers address size (m ∷ ms) fits inside =
    ap₂ ◌||◌ (contains-covers m address size fits inside.0)
      (any_contains-covers address size ms fits inside.1)

all_grant-covers :
    (address size : ℕ) (r w x : Bool) (ms : List Mapping)
    → address + size < 2 ^ 64
    → InSpace ms
    → all_grant address size r w x ms ≡ covers_grant address size r w x ms
all_grant-covers address size r w x [] fits inside = refl
all_grant-covers address size r w x (m ∷ ms) fits inside =
    ap₂ ◌&&◌ (ap (λ b. not b || grants r w x m) (contains-covers m address size fits inside.0))
      (all_grant-covers address size r w x ms fits inside.1)

-- For a range and mappings below the end of the address space, `AccessOk` holds exactly when some
-- mapping includes the range and every mapping that includes it grants each kind of access that
-- is asked for.
pub access_ok-covers :
    (image : MemoryImage) (address size : ℕ) (r w x : Bool)
    → address + size < 2 ^ 64
    → InSpace image.mappings
    → access_ok image address size r w x
      ≡ any_covers address size image.mappings && covers_grant address size r w x image.mappings
access_ok-covers image address size r w x fits inside =
    access_ok-grants image address size r w x
    ∙ ap₂ ◌&&◌ (any_contains-covers address size image.mappings fits inside)
        (all_grant-covers address size r w x image.mappings fits inside)

-- A range that starts in the only mapping, a readable one, and runs past the end of the address
-- space counts as readable.
pub readable_past_space :
    (image : MemoryImage) (m : Mapping) (address size : ℕ)
    → image.mappings ≡ m ∷ []
    → m.readable ≡ true
    → m.address ≤ address
    → address < m.address + length m.bytes
    → m.address + length m.bytes < 2 ^ 64
    → size < 2 ^ 64
    → 2 ^ 64 ≤ address + size
    → readable image address size ≡ true
unfolding readable contains
readable_past_space image m address size only granted from inside space small past =
    access_ok-grants image address size true false false ∙ rw only (ground arith)
