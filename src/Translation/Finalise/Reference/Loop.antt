-- ===== src/Translation/Finalise/Reference/Loop.antt =====
-- The loops of `Finalise` return what it is to return.
use mathlib.Core.List.{append-nil, map}
use reil.Base.{
  ℕ, zero, suc, ◌-◌, ◌≤◌, ◌≡◌, refl, sym, ap, ◌∙◌, not, ◌==◌, false, if◌then◌else◌, arith, Option,
  some, none, List, [], ◌∷◌, ◌++◌, length, ok, inl, inr, Option-cases, length-append,
}
use reil.Base.{==_iff}
use reil.Instruction.{Instruction}
use reil.Translation.{Translation}
use reil.Translation.Finalise.{
  placed_label, resolve_one, resolve, erase_at, place, finalise_from, finalise,
}
use reil.Translation.Finalise.Forward.{
  length-resolve, resolve-append, erase_at-append, get_elem?-append, get_elem?-end,
}
use reil.Translation.Finalise.Whole.{
  place-none, place-some, next_front, length-next_front, finalise_from-step, finalise_from-end,
}
use reil.Translation.Finalise.Reference.{place_from, link, kept, finalised, IsSpaced}
use reil.Translation.Finalise.Reference.Links.{
  IsSpaced-resolve, place_from-plain, place_from-mark, place_from-resolve, kept-plain, kept-mark,
  kept-resolve, with_mark, map-link-same, map-link-none, map-link-resolve,
}

-- What is to come of a list of which the loop has passed the front, of length `i`.
abbrev target : ℕ → List Instruction → List Instruction → List Instruction
target i front back = map (link (λ index. place_from i index back)) (front ++ kept back)

-- A list of which the loop has passed the first `i` instructions, with at most `left` behind them,
-- and of which the wanted list is to come.
record IsPassed (i left : ℕ) (wanted l : List Instruction) : Type 0 where
  front : List Instruction
  back : List Instruction
  whole : l ≡ front ++ back
  here : i ≡ length front
  spaced : IsSpaced back
  behind : length back ≤ left
  same : wanted ≡ target i front back

module _ (i : ℕ) (front : List Instruction) (ri : Instruction) (e : i ≡ length front) where
  plain-target :
      (back : List Instruction)
      → placed_label ri ≡ none
      → target i front (ri ∷ back) ≡ target (suc i) (front ++ ri ∷ []) back
  plain-target back plain =
      map-link-same (λ index. place_from i index (ri ∷ back))
        (λ index. place_from (suc i) index back) (λ index. place_from-plain i index ri back plain)
        (front ++ kept (ri ∷ back))
      ∙ ap (λ l. map (link (λ index. place_from (suc i) index back)) l)
          (ap (λ l. front ++ l) (kept-plain ri back plain) ∙ next_front front ri (kept back))

  plain-IsPassed :
      (back : List Instruction)
      → IsSpaced (ri ∷ back)
      → placed_label ri ≡ none
      → IsPassed
          (suc i)
          (length back)
          (target i front (ri ∷ back))
          (place i ri (front ++ ri ∷ back))
  plain-IsPassed back s plain = record {
    front = front ++ ri ∷ [];
    back = back;
    whole = place-none i ri (front ++ ri ∷ back) plain ∙ next_front front ri back;
    here = omega (arith, length-next_front front ri);
    spaced = s.1;
    behind = omega arith;
    same = plain-target back plain;
  }

  module _ (index : ℕ) (placed : placed_label ri ≡ some index) where
    last_place : place i ri (front ++ ri ∷ []) ≡ resolve index i (front ++ ri ∷ [])
    last_place =
        place-some i index ri (front ++ ri ∷ []) placed
        ∙ ap
            (λ b.
              if not b
              then erase_at i (resolve index i (front ++ ri ∷ []))
              else resolve index i (front ++ ri ∷ []))
            ((==_iff i (length (front ++ ri ∷ []) - 1)).1
              (omega (arith, length-append front (ri ∷ []))))

    last-target : target i front (ri ∷ []) ≡ target (suc i) (resolve index i (front ++ ri ∷ [])) []
    unfolding place_from kept
    last-target =
        let l = front ++ ri ∷ [] in
        map-link-same (λ other. place_from i other (ri ∷ [])) (with_mark index i (λ _. none))
          (λ other. place_from-mark i other index ri [] placed) l
        ∙ sym (map-link-resolve index i (λ _. none) l)
        ∙ ap (map (link (λ _. none))) (sym (append-nil (resolve index i l)))

    last-IsPassed : IsPassed (suc i) 0 (target i front (ri ∷ [])) (place i ri (front ++ ri ∷ []))
    last-IsPassed =
        let l = front ++ ri ∷ [] in
        record {
          front = resolve index i l;
          back = [];
          whole = last_place ∙ sym (append-nil (resolve index i l));
          here = omega (arith, length-next_front front ri, length-resolve index i l);
          spaced = tt;
          behind = omega arith;
          same = last-target;
        }

    module _ (next : Instruction) (back : List Instruction) where
      not_last : (i == length (front ++ ri ∷ next ∷ back) - 1) ≡ false
      not_last = ground (arith, length-append front (ri ∷ next ∷ back))

      erased_place :
          place i ri (front ++ ri ∷ next ∷ back)
          ≡ erase_at i (resolve index i (front ++ ri ∷ next ∷ back))
      erased_place =
          place-some i index ri (front ++ ri ∷ next ∷ back) placed
          ∙ ap
              (λ b.
                if not b
                then erase_at i (resolve index i (front ++ ri ∷ next ∷ back))
                else resolve index i (front ++ ri ∷ next ∷ back))
              not_last

      erased :
          erase_at i (resolve index i (front ++ ri ∷ next ∷ back))
          ≡ (resolve index i front ++ resolve_one index i next ∷ []) ++ resolve index i back
      unfolding resolve
      erased =
          ap (erase_at i) (resolve-append index i front (ri ∷ next ∷ back))
          ∙ erase_at-append (resolve index i front) (resolve_one index i ri)
              (resolve index i (next ∷ back)) i (e ∙ sym (length-resolve index i front))
          ∙ next_front (resolve index i front) (resolve_one index i next) (resolve index i back)

      -- The front and what is to come of the back, before and after the jumps are resolved.
      resolved_kept :
          (resolve index i front ++ resolve_one index i next ∷ []) ++ kept (resolve index i back)
          ≡ resolve index i (front ++ next ∷ kept back)
      unfolding resolve
      resolved_kept =
          sym (
            next_front (resolve index i front) (resolve_one index i next)
              (kept (resolve index i back)))
          ∙ ap (λ l. resolve index i front ++ resolve_one index i next ∷ l)
              (kept-resolve index i back)
          ∙ sym (resolve-append index i front (next ∷ kept back))

      erased-target :
          placed_label next ≡ none
          → target i front (ri ∷ next ∷ back)
            ≡ target
                (suc i)
                (resolve index i front ++ resolve_one index i next ∷ [])
                (resolve index i back)
      erased-target free =
          let behind : ℕ → Option ℕ = λ other. place_from (suc i) other back in
          map-link-same (λ other. place_from i other (ri ∷ next ∷ back)) (with_mark index i behind)
            (λ other.
              place_from-mark i other index ri (next ∷ back) placed
              ∙ ap (λ o. if index == other then some i else o)
                  (place_from-plain i other next back free))
            (front ++ kept (ri ∷ next ∷ back))
          ∙ ap (λ l. map (link (with_mark index i behind)) (front ++ l))
              (kept-mark index ri next back placed ∙ kept-plain next back free)
          ∙ sym (map-link-resolve index i behind (front ++ next ∷ kept back))
          ∙ ap (map (link behind)) (sym resolved_kept)
          ∙ map-link-same behind (λ other. place_from (suc i) other (resolve index i back))
              (λ other. sym (place_from-resolve index i (suc i) other back))
              ((resolve index i front ++ resolve_one index i next ∷ [])
                ++ kept (resolve index i back))

      erased-IsPassed :
          placed_label next ≡ none
          → IsSpaced back
          → IsPassed
              (suc i)
              (suc (length back))
              (target i front (ri ∷ next ∷ back))
              (place i ri (front ++ ri ∷ next ∷ back))
      erased-IsPassed free s = record {
        front = resolve index i front ++ resolve_one index i next ∷ [];
        back = resolve index i back;
        whole = erased_place ∙ erased;
        here = omega (
          arith,
          length-next_front (resolve index i front) (resolve_one index i next),
          length-resolve index i front,
        );
        spaced = IsSpaced-resolve index i back s;
        behind = omega (arith, length-resolve index i back);
        same = erased-target free;
      }

  no_mark : (l : ℕ) → placed_label ri ≡ none → ¬ (placed_label ri ≡ some l)
  no_mark l e h = absurd (cc)

  place-IsPassed :
      (back : List Instruction)
      → IsSpaced (ri ∷ back)
      → IsPassed
          (suc i)
          (length back)
          (target i front (ri ∷ back))
          (place i ri (front ++ ri ∷ back))
  place-IsPassed [] s = elim (Option-cases (placed_label ri)) [
    | inl plain ↦ plain-IsPassed [] s plain
    | inr (index, placed) ↦ last-IsPassed index placed
  ]
  place-IsPassed (next ∷ back) s = elim (Option-cases (placed_label ri)) [
    | inl plain ↦ plain-IsPassed (next ∷ back) s plain
    | inr (index, placed) ↦ elim s.0 [
      | inl plain ↦ absurd (no_mark index plain placed)
      | inr free ↦ erased-IsPassed index placed next back free s.1.1
    ]
  ]

end_target : (i : ℕ) (front : List Instruction) → front ++ [] ≡ target i front []
unfolding place_from kept
end_target i front = sym (map-link-none (front ++ []))

finalise_from-target :
    (fuel i : ℕ) (front back : List Instruction)
    → i ≡ length front
    → IsSpaced back
    → length back ≤ fuel
    → finalise_from fuel i (front ++ back) ≡ ok (target i front back)
finalise_from-target fuel i front [] e s enough =
    let nothing : length (front ++ []) ≡ length front = ap length (append-nil front) in
    finalise_from-end fuel i (front ++ []) (get_elem?-end (front ++ []) i (omega arith))
    ∙ ap ok (end_target i front)
finalise_from-target zero i front (ri ∷ back) e s enough = absurd (omega arith)
finalise_from-target (suc fuel) i front (ri ∷ back) e s enough =
    let p = place-IsPassed i front ri e back s in
    finalise_from-step fuel i ri (front ++ ri ∷ back) (get_elem?-append front ri back i e)
    ∙ ap (finalise_from fuel (suc i)) p.whole
    ∙ finalise_from-target fuel (suc i) p.front p.back p.here p.spaced (omega (arith, p.behind))
    ∙ ap ok (sym p.same)

-- On a translation in which no label is placed right behind another, `Finalise` ends and returns
-- its instructions without those that mark places, but for one at the end, and with every jump to a
-- label that is placed going to the offset of its first place, modulo 65536; other jumps are as they
-- were.
pub finalise-finalised :
    (t : Translation) → IsSpaced t.translation → finalise t ≡ ok (finalised t.translation)
unfolding finalise
finalise-finalised t s =
    finalise_from-target (length t.translation) 0 [] t.translation refl s (omega arith)
