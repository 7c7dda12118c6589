-- ===== src/Translation/Finalise/Reference/Links.antt =====
-- Marks and links before and after the jumps to one label are resolved.
use mathlib.Core.List.{map}
use reil.Base.{
  ℕ, suc, ◌≡◌, refl, sym, ap, ap₂, Bool, ◌∙◌, ◌==◌, false, true, if◌then◌else◌, Option, some, none,
  List, [], ◌∷◌, inl, inr, u16, Option-cases, Bool-cases,
}
use reil.Instruction.{Instruction, offset}
use reil.Translation.Finalise.{
  is_jcc, label_of, placed_label, jumps_to, resolve_one, resolve, place,
}
use reil.Translation.Finalise.Reference.{place_from, link, kept, NoLabel, IsSpaced}

-- The marks stay when an output changes.
placed_label-resolve_one :
    (index i : ℕ) (rj : Instruction) → placed_label (resolve_one index i rj) ≡ placed_label rj
unfolding resolve_one
placed_label-resolve_one index i rj = elim (Bool-cases (jumps_to index rj)) [
  | inl jumps ↦ rw jumps refl
  | inr stays ↦ rw stays refl
]

NoLabel-resolve : (index i : ℕ) (l : List Instruction) → NoLabel l → NoLabel (resolve index i l)
unfolding resolve
NoLabel-resolve index i [] h = tt
NoLabel-resolve index i (r ∷ l) h = placed_label-resolve_one index i r ∙ h

pub IsSpaced-resolve :
    (index i : ℕ) (l : List Instruction) → IsSpaced l → IsSpaced (resolve index i l)
unfolding resolve
IsSpaced-resolve index i [] h = tt
IsSpaced-resolve index i (r ∷ l) h = (
  elim h.0 [
    | inl plain ↦ inl (placed_label-resolve_one index i r ∙ plain)
    | inr next ↦ inr (NoLabel-resolve index i l next)
  ],
  IsSpaced-resolve index i l h.1,
)

pub place_from-plain :
    (i index : ℕ) (ri : Instruction) (rest : List Instruction)
    → placed_label ri ≡ none
    → place_from i index (ri ∷ rest) ≡ place_from (suc i) index rest
unfolding place_from
place_from-plain i index ri rest e = rw (e, place_from) refl

pub place_from-mark :
    (i index l : ℕ) (ri : Instruction) (rest : List Instruction)
    → placed_label ri ≡ some l
    → place_from i index (ri ∷ rest) ≡ (if l == index then some i else place_from i index rest)
unfolding place_from
place_from-mark i index l ri rest e = rw (e, place_from) refl

pub place_from-resolve :
    (index k i other : ℕ) (l : List Instruction)
    → place_from i other (resolve index k l) ≡ place_from i other l
unfolding place_from resolve
place_from-resolve index k i other [] = refl
place_from-resolve index k i other (r ∷ l) = elim (Option-cases (placed_label r)) [
  | inl plain ↦
      place_from-plain i other (resolve_one index k r) (resolve index k l)
        (placed_label-resolve_one index k r ∙ plain)
      ∙ place_from-resolve index k (suc i) other l
      ∙ sym (place_from-plain i other r l plain)
  | inr (m, mark) ↦
      place_from-mark i other m (resolve_one index k r) (resolve index k l)
        (placed_label-resolve_one index k r ∙ mark)
      ∙ ap (λ o. if m == other then some i else o) (place_from-resolve index k i other l)
      ∙ sym (place_from-mark i other m r l mark)
]

pub kept-plain :
    (ri : Instruction) (rest : List Instruction)
    → placed_label ri ≡ none
    → kept (ri ∷ rest) ≡ ri ∷ kept rest
unfolding kept
kept-plain ri [] e = refl
kept-plain ri (next ∷ rest) e = rw (e, kept) refl

pub kept-mark :
    (l : ℕ) (ri next : Instruction) (rest : List Instruction)
    → placed_label ri ≡ some l
    → kept (ri ∷ next ∷ rest) ≡ kept (next ∷ rest)
unfolding kept
kept-mark l ri next rest e = rw (e, kept) refl

pub kept-resolve :
    (index i : ℕ) (l : List Instruction) → kept (resolve index i l) ≡ resolve index i (kept l)
unfolding kept resolve
kept-resolve index i [] = refl
kept-resolve index i (r ∷ []) = refl
kept-resolve index i (r ∷ next ∷ l) =
    let rest = kept-resolve index i (next ∷ l) in
    let same = placed_label-resolve_one index i r in
    elim (Option-cases (placed_label r)) [
      | inl plain ↦
          kept-plain (resolve_one index i r) (resolve index i (next ∷ l)) (same ∙ plain)
          ∙ ap (λ t. resolve_one index i r ∷ t) rest
          ∙ ap (resolve index i) (sym (kept-plain r (next ∷ l) plain))
      | inr (m, mark) ↦
          kept-mark m (resolve_one index i r) (resolve_one index i next) (resolve index i l)
            (same ∙ mark)
          ∙ rest
          ∙ ap (resolve index i) (sym (kept-mark m r next l mark))
    ]

module _ (p : ℕ → Option ℕ) (rj : Instruction) where
  link-plain : is_jcc rj.opcode ≡ false → link p rj ≡ rj
  unfolding link
  link-plain plain = rw (plain, link) refl

  link-other : label_of rj.output ≡ none → link p rj ≡ rj
  unfolding link
  link-other other = elim (Bool-cases (is_jcc rj.opcode)) [
    | inl jump ↦ rw (jump, other, link) refl
    | inr plain ↦ link-plain plain
  ]

  -- What a jump to a label becomes where the place is known, and where it is not.
  linked : Option ℕ → Instruction
  linked none = rj
  linked (some i) = record rj { output = offset (u16 i) }

  link-to :
      (l : ℕ) → is_jcc rj.opcode ≡ true → label_of rj.output ≡ some l → link p rj ≡ linked (p l)
  unfolding link linked
  link-to l jump to = elim (Option-cases (p l)) [
    | inl unknown ↦ rw (jump, to, unknown, link) refl
    | inr (i, known) ↦ rw (jump, to, known, link) refl
  ]

-- Linking to no place changes nothing.
link-none : (rj : Instruction) → link (λ _. none) rj ≡ rj
unfolding linked
link-none rj = elim (Bool-cases (is_jcc rj.opcode)) [
  | inl jump ↦ elim (Option-cases (label_of rj.output)) [
    | inl other ↦ link-other (λ _. none) rj other
    | inr (l, to) ↦ link-to (λ _. none) rj l jump to
  ]
  | inr plain ↦ link-plain (λ _. none) rj plain
]

resolve_one-stays :
    (index i : ℕ) (rj : Instruction) → jumps_to index rj ≡ false → resolve_one index i rj ≡ rj
unfolding resolve_one
resolve_one-stays index i rj stays = rw (stays, resolve_one) refl

resolve_one-goes :
    (index i : ℕ) (rj : Instruction)
    → jumps_to index rj ≡ true
    → resolve_one index i rj ≡ record rj { output = offset (u16 i) }
unfolding resolve_one
resolve_one-goes index i rj jumps = rw (jumps, resolve_one) refl

-- Resolving the jumps to one label, and linking those to the others after it.
module _ (index i : ℕ) (place : ℕ → Option ℕ) where
  abbrev pub with_mark : ℕ → Option ℕ
  with_mark other = if index == other then some i else place other

module _ (index i : ℕ) (place : ℕ → Option ℕ) (rj : Instruction) where
  unchanged :
      jumps_to index rj ≡ false
      → link place rj ≡ link (with_mark index i place) rj
      → link place (resolve_one index i rj) ≡ link (with_mark index i place) rj
  unchanged stays same = ap (link place) (resolve_one-stays index i rj stays) ∙ same

  link-resolve_one : link place (resolve_one index i rj) ≡ link (with_mark index i place) rj
  unfolding linked
  link-resolve_one = elim (Bool-cases (is_jcc rj.opcode)) [
    | inl jump ↦ elim (Option-cases (label_of rj.output)) [
      | inl other ↦
          unchanged (rw (jump, other) refl)
            (link-other place rj other ∙ sym (link-other (with_mark index i place) rj other))
      | inr (l, to) ↦ elim (Bool-cases (index == l)) [
        | inl it ↦
            ap (link place) (resolve_one-goes index i rj (rw (jump, to) it))
            ∙ link-other place (record rj { output = offset (u16 i) }) refl
            ∙ sym (
                link-to (with_mark index i place) rj l jump to
                ∙ ap (λ (t : Bool). linked place rj (if t then some i else place l)) it)
        | inr another ↦ unchanged (rw (jump, to) another) (
            link-to place rj l jump to
            ∙ sym (
                link-to (with_mark index i place) rj l jump to
                ∙ ap (λ (t : Bool). linked place rj (if t then some i else place l)) another))
      ]
    ]
    | inr plain ↦
        unchanged (rw plain refl)
          (link-plain place rj plain ∙ sym (link-plain (with_mark index i place) rj plain))
  ]

module _ (p q : ℕ → Option ℕ) (same : (index : ℕ) → p index ≡ q index) where
  link-same : (rj : Instruction) → link p rj ≡ link q rj
  unfolding linked
  link-same rj = elim (Bool-cases (is_jcc rj.opcode)) [
    | inl jump ↦ elim (Option-cases (label_of rj.output)) [
      | inl other ↦ link-other p rj other ∙ sym (link-other q rj other)
      | inr (l, to) ↦
          link-to p rj l jump to ∙ ap (linked p rj) (same l) ∙ sym (link-to q rj l jump to)
    ]
    | inr plain ↦ link-plain p rj plain ∙ sym (link-plain q rj plain)
  ]

  pub map-link-same : (l : List Instruction) → map (link p) l ≡ map (link q) l
  map-link-same [] = refl
  map-link-same (r ∷ l) = ap₂ (λ x xs. x ∷ xs) (link-same r) (map-link-same l)

pub map-link-none : (l : List Instruction) → map (link (λ _. none)) l ≡ l
map-link-none [] = refl
map-link-none (r ∷ l) = ap₂ (λ x xs. x ∷ xs) (link-none r) (map-link-none l)

pub map-link-resolve :
    (index i : ℕ) (place : ℕ → Option ℕ) (l : List Instruction)
    → map (link place) (resolve index i l) ≡ map (link (with_mark index i place)) l
unfolding resolve
map-link-resolve index i place [] = refl
map-link-resolve index i place (r ∷ l) =
    ap₂ (λ x xs. x ∷ xs) (link-resolve_one index i place r) (map-link-resolve index i place l)
