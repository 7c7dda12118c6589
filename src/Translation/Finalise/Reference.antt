-- ===== src/Translation/Finalise/Reference.antt =====
-- What `Finalise` is to return, without its loops.
pub mod Links
pub mod Loop
use mathlib.Core.List.{map}
use reil.Base.{ℕ, suc, ◌≡◌, ◌⊎◌, Option, none, some, List, [], ◌∷◌, ◌==◌, if◌then◌else◌, u16}
use reil.Instruction.{Instruction, offset}
use reil.Translation.Finalise.{is_jcc, label_of, placed_label}

-- The offset of the place that is marked by a label: `i` and the instructions ahead of the place,
-- without those that mark places. The first mark counts.
unfoldable pub place_from : ℕ → ℕ → List Instruction → Option ℕ
place_from i index [] = none
place_from i index (ri ∷ rest) =
    let plain = place_from (suc i) index rest in
    let behind = place_from i index rest in
    elim (placed_label ri) [ none ↦ plain | some l ↦ if l == index then some i else behind ]

-- A jump to a label goes to the offset of its place, if it has one.
unfoldable pub link : (ℕ → Option ℕ) → Instruction → Instruction
link place rj =
    if is_jcc rj.opcode
    then elim (label_of rj.output) [
      | none ↦ rj
      | some l ↦ elim (place l) [ none ↦ rj | some i ↦ record rj { output = offset (u16 i) } ]
    ]
    else rj

-- The instructions that mark places are left out, but for one at the end.
unfoldable pub kept : List Instruction → List Instruction
kept [] = []
kept (ri ∷ []) = ri ∷ []
kept (ri ∷ next ∷ rest) =
    let behind = kept (next ∷ rest) in
    elim (placed_label ri) [ none ↦ ri ∷ behind | some l ↦ behind ]

-- Every jump to a label that is placed is linked to the place.
abbrev pub finalised : List Instruction → List Instruction
finalised l = map (link (λ index. place_from 0 index l)) (kept l)

-- The next instruction marks no place.
abbrev pub NoLabel : List Instruction → Type 0
NoLabel [] = Unit
NoLabel (ri ∷ rest) = placed_label ri ≡ none

-- No instruction that marks a place stands right behind another.
abbrev pub IsSpaced : List Instruction → Type 0
IsSpaced [] = Unit
IsSpaced (ri ∷ rest) = ((placed_label ri ≡ none) ⊎ NoLabel rest) × IsSpaced rest
