-- ===== src/Translation/Finalise/Whole.antt =====
-- `Finalise` ends, and a translation whose labels stand behind the jumps to them then goes forward.
use native.Mathlib.Nat.{mod-eq_of_lt}
use mathlib.Core.List.{append-nil, append_assoc}
use mathlib.Core.Path.{subst}
use reil.Base.{
  ℕ, zero, suc, ◌+◌, ◌-◌, ◌≤◌, ◌<◌, ◌^◌, ◌≡◌, refl, sym, ap, ◌∙◌, false, not, ◌==◌, if◌then◌else◌,
  arith, some, none, List, [], ◌∷◌, ◌++◌, length, get_elem?, ok, Returns, inl, inr, Option-cases,
  length-append,
}
use reil.Base.{==_iff}
use reil.Instruction.{Instruction}
use reil.Interpreter.Forward.{IsForward}
use reil.Translation.{Translation}
use reil.Translation.Finalise.{placed_label, resolve, erase_at, place, finalise_from, finalise}
use reil.Translation.Finalise.Forward.{
  IsOrdered, IsUnused, append-IsForward, resolve-IsForward, length-resolve, resolve-append,
  resolve-same, erase_at-append, get_elem?-append, get_elem?-end,
}

pub place-none :
    (i : ℕ) (ri : Instruction) (l : List Instruction) → placed_label ri ≡ none → place i ri l ≡ l
unfolding place
place-none i ri l e = rw (e, place) refl

pub place-some :
    (i index : ℕ) (ri : Instruction) (l : List Instruction)
    → placed_label ri ≡ some index
    → place i ri l
      ≡ (if not (i == length l - 1) then erase_at i (resolve index i l) else resolve index i l)
unfolding place
place-some i index ri l e = rw (e, place) refl

-- The jumps in front of the label `ri` are resolved, and nothing from it on.
resolve-front :
    (index i : ℕ) (front : List Instruction) (ri : Instruction) (back : List Instruction)
    → placed_label ri ≡ some index
    → IsOrdered (ri ∷ back)
    → resolve index i (front ++ ri ∷ back) ≡ resolve index i front ++ ri ∷ back
resolve-front index i front ri back e o =
    resolve-append index i front (ri ∷ back)
    ∙ ap (λ l. resolve index i front ++ l)
        (resolve-same index i (ri ∷ back) (subst (λ p. IsUnused p (ri ∷ back)) e o.1))

pub next_front :
    (front : List Instruction) (ri : Instruction) (back : List Instruction)
    → front ++ ri ∷ back ≡ (front ++ ri ∷ []) ++ back
next_front front ri back = sym (append_assoc front (ri ∷ []) back)

pub length-next_front :
    (front : List Instruction) (ri : Instruction) → length (front ++ ri ∷ []) ≡ suc (length front)
length-next_front front ri = omega (arith, length-append front (ri ∷ []))

pub finalise_from-step :
    (fuel i : ℕ) (ri : Instruction) (l : List Instruction)
    → get_elem? l i ≡ some ri
    → finalise_from (suc fuel) i l ≡ finalise_from fuel (suc i) (place i ri l)
unfolding finalise_from
finalise_from-step fuel i ri l e = rw (e, finalise_from) refl

pub finalise_from-end :
    (fuel i : ℕ) (l : List Instruction) → get_elem? l i ≡ none → finalise_from fuel i l ≡ ok l
unfolding finalise_from
finalise_from-end zero i l e = rw (e, finalise_from) refl
finalise_from-end (suc fuel) i l e = rw (e, finalise_from) refl

-- A list of at most `size` instructions, `left` of them from index `i` on: those in front go
-- forward, and those behind are ordered.
record IsSplit (i size left : ℕ) (l : List Instruction) : Type 0 where
  front : List Instruction
  back : List Instruction
  whole : l ≡ front ++ back
  here : i ≡ length front
  forward : IsForward 0 front
  ordered : IsOrdered back
  short : length front + length back ≤ size
  behind : length back ≤ left

module _ (i : ℕ) (front : List Instruction) (ri : Instruction) (e : i ≡ length front)
    (f : IsForward 0 front) (lt : i < 2 ^ 16) where
  plain-IsSplit :
      (back : List Instruction)
      → IsOrdered (ri ∷ back)
      → placed_label ri ≡ none
      → IsSplit (suc i) (suc (i + length back)) (length back) (place i ri (front ++ ri ∷ back))
  plain-IsSplit back o plain = record {
    front = front ++ ri ∷ [];
    back = back;
    whole = place-none i ri (front ++ ri ∷ back) plain ∙ next_front front ri back;
    here = omega (arith, length-next_front front ri);
    forward = append-IsForward 0 front ri f o.0;
    ordered = o.2;
    short = omega (arith, length-next_front front ri);
    behind = omega arith;
  }

  module _ (index : ℕ) (placed : placed_label ri ≡ some index) where
    resolved : List Instruction
    resolved = resolve index i front

    resolved-IsForward : IsForward 0 resolved
    unfolding resolved
    resolved-IsForward = resolve-IsForward index i 0 front (omega (arith, mod-eq_of_lt lt)) f

    length-resolved : length resolved ≡ i
    unfolding resolved
    length-resolved = length-resolve index i front ∙ sym e

    last-IsSplit : IsOrdered (ri ∷ []) → IsSplit (suc i) (suc i) 0 (place i ri (front ++ ri ∷ []))
    unfolding resolved
    last-IsSplit o = record {
      front = resolved ++ ri ∷ [];
      back = [];
      whole =
          place-some i index ri (front ++ ri ∷ []) placed
          ∙ ap
              (λ b.
                if not b
                then erase_at i (resolve index i (front ++ ri ∷ []))
                else resolve index i (front ++ ri ∷ []))
              ((==_iff i (length (front ++ ri ∷ []) - 1)).1
                (omega (arith, length-append front (ri ∷ []))))
          ∙ resolve-front index i front ri [] placed o
          ∙ sym (append-nil (resolve index i front ++ ri ∷ []));
      here = omega (arith, length-next_front resolved ri, length-resolved);
      forward = append-IsForward 0 resolved ri resolved-IsForward o.0;
      ordered = tt;
      short = omega (arith, length-next_front resolved ri, length-resolved);
      behind = omega arith;
    }

    not_last :
        (next : Instruction) (back : List Instruction)
        → (i == length (front ++ ri ∷ next ∷ back) - 1) ≡ false
    not_last next back = ground (arith, length-append front (ri ∷ next ∷ back))

    erased-IsSplit :
        (next : Instruction) (back : List Instruction)
        → IsOrdered (ri ∷ next ∷ back)
        → IsSplit
            (suc i)
            (suc (i + suc (length back)))
            (suc (length back))
            (place i ri (front ++ ri ∷ next ∷ back))
    unfolding resolved
    erased-IsSplit next back o = record {
      front = resolved ++ next ∷ [];
      back = back;
      whole =
          place-some i index ri (front ++ ri ∷ next ∷ back) placed
          ∙ ap
              (λ b.
                if not b
                then erase_at i (resolve index i (front ++ ri ∷ next ∷ back))
                else resolve index i (front ++ ri ∷ next ∷ back))
              (not_last next back)
          ∙ ap (erase_at i) (resolve-front index i front ri (next ∷ back) placed o)
          ∙ erase_at-append (resolve index i front) ri (next ∷ back) i (sym length-resolved)
          ∙ next_front (resolve index i front) next back;
      here = omega (arith, length-next_front resolved next, length-resolved);
      forward = append-IsForward 0 resolved next resolved-IsForward o.2.0;
      ordered = o.2.2;
      short = omega (arith, length-next_front resolved next, length-resolved);
      behind = omega arith;
    }

    label-IsSplit :
        (back : List Instruction)
        → IsOrdered (ri ∷ back)
        → IsSplit (suc i) (suc (i + length back)) (length back) (place i ri (front ++ ri ∷ back))
    label-IsSplit [] o =
        subst (λ n. IsSplit (suc i) n 0 (place i ri (front ++ ri ∷ []))) (omega arith)
          (last-IsSplit o)
    label-IsSplit (next ∷ back) o = erased-IsSplit next back o

  -- A round of the loop leaves one instruction less behind it.
  place-IsSplit :
      (back : List Instruction)
      → IsOrdered (ri ∷ back)
      → IsSplit (suc i) (suc (i + length back)) (length back) (place i ri (front ++ ri ∷ back))
  place-IsSplit back o = elim (Option-cases (placed_label ri)) [
    | inl plain ↦ plain-IsSplit back o plain
    | inr (index, placed) ↦ label-IsSplit index placed back o
  ]

-- The loop, at index `i`.
finalise_from-IsForward :
    (fuel i : ℕ) (front back : List Instruction)
    → i ≡ length front
    → IsForward 0 front
    → IsOrdered back
    → length front + length back < 2 ^ 16
    → length back ≤ fuel
    → Returns (finalise_from fuel i (front ++ back)) (IsForward 0)
finalise_from-IsForward fuel i front [] e f o short enough =
    let whole : front ++ [] ≡ front = append-nil front in
    rw whole (front, finalise_from-end fuel i front (get_elem?-end front i (omega arith)), f)
finalise_from-IsForward zero i front (ri ∷ back) e f o short enough = absurd (omega arith)
finalise_from-IsForward (suc fuel) i front (ri ∷ back) e f o short enough =
    let s = place-IsSplit i front ri e f (omega arith) back o in
    subst (λ m. Returns m (IsForward 0))
      (sym (
        finalise_from-step fuel i ri (front ++ ri ∷ back) (get_elem?-append front ri back i e)
        ∙ ap (finalise_from fuel (suc i)) s.whole))
      (finalise_from-IsForward fuel (suc i) s.front s.back s.here s.forward s.ordered
        (omega (arith, s.short)) (omega (arith, s.behind)))

-- A translation of fewer than 65536 instructions, none of which has an offset for its output, and
-- in which no label is jumped to from where it is placed on: `Finalise` ends, and every jump to an
-- offset that it leaves goes forward.
pub finalise-IsForward :
    (t : Translation)
    → IsOrdered t.translation
    → length t.translation < 2 ^ 16
    → Returns (finalise t) (IsForward 0)
unfolding finalise
finalise-IsForward t o short =
    finalise_from-IsForward (length t.translation) 0 [] t.translation refl tt o (omega arith)
      (omega arith)
