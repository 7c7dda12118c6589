-- ===== src/Translation/Finalise/Forward.antt =====
-- Labels that are placed behind the jumps to them become offsets ahead of these.

use reil.Base.{
  ℕ, zero, suc, ◌+◌, ◌≤◌, ◌<◌, ◌≡◌, refl, ap, false, arith, Option, some, none, List, [], ◌∷◌, ◌++◌,
  length, get_elem?, All, u16, inl, inr, Bool-cases,
}
use reil.Instruction.{
  Operand, Instruction, no_operand, immediate, offset, register, temporary, label,
}
use reil.Interpreter.Forward.{IsLater, IsForward}
use reil.Translation.Finalise.{placed_label, jumps_to, resolve_one, resolve, erase_at}

-- An operand that is no offset.
abbrev pub IsNoOffset : Operand → Type 0
IsNoOffset (offset o) = ⊥
IsNoOffset _ = Unit

-- Nothing jumps to the label.
abbrev pub IsUnused : Option ℕ → List Instruction → Type 0
IsUnused none l = Unit
IsUnused (some index) l = All (λ rj. jumps_to index rj ≡ false) l

-- No output is an offset, and no label is jumped to from where it is placed on.
abbrev pub IsOrdered : List Instruction → Type 0
IsOrdered [] = Unit
IsOrdered (ri ∷ rest) =
    IsNoOffset ri.output × IsUnused (placed_label ri) (ri ∷ rest) × IsOrdered rest

pub later : (i : ℕ) (o : Operand) → IsNoOffset o → IsLater i o
later i (offset o) h = absurd h
later i no_operand h = tt
later i (immediate a) h = tt
later i (register r) h = tt
later i (temporary t) h = tt
later i (label l) h = tt

pub append-IsForward :
    (k : ℕ) (front : List Instruction) (ri : Instruction)
    → IsForward k front
    → IsNoOffset ri.output
    → IsForward k (front ++ ri ∷ [])
append-IsForward k [] ri h free = (later k ri.output free, tt)
append-IsForward k (r ∷ front) ri h free = (h.0, append-IsForward (suc k) front ri h.1 free)

resolve_one-IsLater :
    (index i k : ℕ) (ri : Instruction)
    → k < u16 i
    → IsLater k ri.output
    → IsLater k (resolve_one index i ri).output
unfolding resolve_one
resolve_one-IsLater index i k ri lt h = elim (Bool-cases (jumps_to index ri)) [
  | inl jumps ↦ rw jumps lt
  | inr stays ↦ rw stays h
]

pub resolve-IsForward :
    (index i k : ℕ) (front : List Instruction)
    → k + length front ≤ u16 i
    → IsForward k front
    → IsForward k (resolve index i front)
unfolding resolve
resolve-IsForward index i k [] le h = tt
resolve-IsForward index i k (r ∷ front) le h = (
  resolve_one-IsLater index i k r (omega arith) h.0,
  resolve-IsForward index i (suc k) front (omega arith) h.1,
)

pub length-resolve : (index i : ℕ) (l : List Instruction) → length (resolve index i l) ≡ length l
unfolding resolve
length-resolve index i [] = refl
length-resolve index i (r ∷ l) = ap suc (length-resolve index i l)

pub resolve-append :
    (index i : ℕ) (front back : List Instruction)
    → resolve index i (front ++ back) ≡ resolve index i front ++ resolve index i back
unfolding resolve
resolve-append index i [] back = refl
resolve-append index i (r ∷ front) back =
    ap (λ l. resolve_one index i r ∷ l) (resolve-append index i front back)

-- Where nothing jumps to the label, nothing is changed.
pub resolve-same :
    (index i : ℕ) (l : List Instruction)
    → All (λ rj. jumps_to index rj ≡ false) l
    → resolve index i l ≡ l
unfolding resolve resolve_one
resolve-same index i [] h = refl
resolve-same index i (r ∷ l) h = rw (h.0, resolve-same index i l h.1) refl

pub erase_at-append :
    (front : List Instruction) (ri : Instruction) (back : List Instruction) (i : ℕ)
    → i ≡ length front
    → erase_at i (front ++ ri ∷ back) ≡ front ++ back
unfolding erase_at
erase_at-append [] ri back zero e = refl
erase_at-append [] ri back (suc i) e = absurd (omega arith)
erase_at-append (r ∷ front) ri back zero e = absurd (omega arith)
erase_at-append (r ∷ front) ri back (suc i) e =
    ap (λ l. r ∷ l) (erase_at-append front ri back i (omega arith))

pub get_elem?-append :
    (front : List Instruction) (ri : Instruction) (back : List Instruction) (i : ℕ)
    → i ≡ length front
    → get_elem? (front ++ ri ∷ back) i ≡ some ri
get_elem?-append [] ri back zero e = refl
get_elem?-append [] ri back (suc i) e = absurd (omega arith)
get_elem?-append (r ∷ front) ri back zero e = absurd (omega arith)
get_elem?-append (r ∷ front) ri back (suc i) e = get_elem?-append front ri back i (omega arith)

pub get_elem?-end : (l : List Instruction) (i : ℕ) → length l ≤ i → get_elem? l i ≡ none
get_elem?-end [] i h = refl
get_elem?-end (r ∷ l) zero h = absurd (omega arith)
get_elem?-end (r ∷ l) (suc i) h = get_elem?-end l i (omega arith)
