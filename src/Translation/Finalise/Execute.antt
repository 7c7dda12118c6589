-- ===== src/Translation/Finalise/Execute.antt =====
-- What `Finalise` returns is executed to its end.
use mathlib.Core.List.{map}
use mathlib.Core.Path.{subst}
use reil.Base.{
  ℕ, suc, ◌≤◌, ◌<◌, ◌≡◌, refl, sym, ap, ◌∙◌, arith, inl, inr, Option-cases, List, [], ◌∷◌, length,
  Run, ok, fault, Returns,
}
use reil.Instruction.{Instruction, NativeInstruction}
use reil.Interpreter.{State}
use reil.Interpreter.Forward.{IsForward, Ends, execute-Ends}
use reil.Translation.{Translation}
use reil.Translation.Finalise.{placed_label, finalise}
use reil.Translation.Finalise.Forward.{IsOrdered}
use reil.Translation.Finalise.Whole.{finalise-IsForward}
use reil.Translation.Finalise.Reference.{IsSpaced, kept, finalised}
use reil.Translation.Finalise.Reference.Loop.{finalise-finalised}

result : Run (List Instruction) → List Instruction
result (ok r) = r
result (fault e) = []

length-kept : (l : List Instruction) → length (kept l) ≤ length l
unfolding kept
length-kept [] = omega arith
length-kept (ri ∷ []) = omega arith
length-kept (ri ∷ next ∷ rest) =
    let behind = length-kept (next ∷ rest) in
    elim (Option-cases (placed_label ri)) [
      | inl plain ↦ rw (plain, kept) (omega arith)
      | inr (l, mark) ↦ rw (mark, kept) (omega arith)
    ]

length-map : (f : Instruction → Instruction) (l : List Instruction) → length (map f l) ≡ length l
length-map f [] = refl
length-map f (ri ∷ l) = ap suc (length-map f l)

length-finalised : (l : List Instruction) → length (finalised l) ≤ length l
length-finalised l = omega (arith, length-kept l, length-map _ (kept l))

-- For a translation of fewer than 0xffff instructions, none of which has an offset for its output,
-- in which no label is placed right behind another, and none is jumped to from where it is placed
-- on: `Finalise` ends and returns the instructions with their jumps linked, and the interpreter
-- executes these to their end, `Ends`, with more fuel than the translation has instructions.
pub finalise-Ends :
    (t : Translation) (fuel : ℕ) (s : State) (ni : NativeInstruction)
    → IsSpaced t.translation
    → IsOrdered t.translation
    → length t.translation < 0xffff
    → length t.translation < fuel
    → Returns
        (finalise t)
        (λ r. (r ≡ finalised t.translation) × Ends fuel s (record ni { reil = r }))
unfolding result
finalise-Ends t fuel s ni spaced ordered short enough =
    let all = finalised t.translation in
    let ran = finalise-finalised t spaced in
    let (r, returned, forward) = finalise-IsForward t ordered (omega arith) in
    let same : r ≡ all = ap result (sym returned ∙ ran) in
    let shorter = length-finalised t.translation in
    (
      all,
      ran,
      (
        refl,
        execute-Ends fuel s (record ni { reil = all }) (subst (IsForward 0) same forward)
            (omega arith) (omega arith),
      ),
    )
