-- ===== src/Translation/Finalise/Tests.antt =====
-- Labels in a translation of three instructions, and two labels one behind the other.
use reil.Base.{◌≡◌, refl, List, [], ◌∷◌, ok, arith, Returns, inl, inr, none}
use reil.Instruction.{Instruction, NativeInstruction, Operand, offset, label}
use reil.Instruction.Build
use reil.Interpreter.Forward.{Ends}
use reil.Translation.{Translation, constant}
use reil.Translation.Finalise.{finalise}
use reil.Translation.Finalise.Forward.{IsOrdered}
use reil.Translation.Finalise.Reference.{IsSpaced, place_from, link, kept, finalised}
use reil.Translation.Finalise.Reference.Loop.{finalise-finalised}
use reil.Translation.Finalise.Execute.{finalise-Ends}
use reil.Interpreter.{State}

abbrev jump_to : Operand → Instruction
jump_to target = Build.jcc (constant 8 1) target

abbrev made : List Instruction → Translation
made instructions = record { flags = 0; tmp_index = 0; label_index = 2; translation = instructions }

abbrev skipping : Translation
skipping = made (jump_to (label 0) ∷ Build.unkn ∷ Build.nop_with (label 0) ∷ Build.nop ∷ [])

skips : finalise skipping ≡ ok (jump_to (offset 2) ∷ Build.unkn ∷ Build.nop ∷ [])
unfolding finalise Build.unkn reil.Translation.Finalise.finalise_from
    reil.Translation.Finalise.place reil.Translation.Finalise.erase_at
    reil.Translation.Finalise.resolve reil.Translation.Finalise.resolve_one Build.jcc Build.nop_with
    Build.nop
skips = refl

-- The second of two adjacent labels is passed over, and the jump to it keeps its label.
misses_adjacent :
    finalise (
      made (
        jump_to (label 0)
        ∷ jump_to (label 1)
        ∷ Build.nop_with (label 0)
        ∷ Build.nop_with (label 1)
        ∷ Build.nop
        ∷ []))
    ≡ ok (jump_to (offset 2) ∷ jump_to (label 1) ∷ Build.nop_with (label 1) ∷ Build.nop ∷ [])
unfolding finalise reil.Translation.Finalise.finalise_from reil.Translation.Finalise.place
    reil.Translation.Finalise.erase_at reil.Translation.Finalise.resolve
    reil.Translation.Finalise.resolve_one Build.jcc Build.nop_with Build.nop
misses_adjacent = refl

skipping-IsOrdered : IsOrdered skipping.translation
unfolding Build.jcc Build.unkn Build.nop_with Build.nop
skipping-IsOrdered = (tt, tt, (tt, tt, (tt, (refl, (refl, tt)), (tt, tt, tt))))

skipping-IsSpaced : IsSpaced skipping.translation
unfolding Build.jcc Build.unkn Build.nop_with Build.nop
skipping-IsSpaced = (inl refl, (inl refl, (inr refl, (inl refl, tt))))

finalise-finalised_example :
    finalise skipping
    ≡ ok (finalised (jump_to (label 0) ∷ Build.unkn ∷ Build.nop_with (label 0) ∷ Build.nop ∷ []))
finalise-finalised_example = finalise-finalised skipping skipping-IsSpaced

-- The reference at the example.
finalised_skipping :
    finalised skipping.translation ≡ jump_to (offset 2) ∷ Build.unkn ∷ Build.nop ∷ []
unfolding place_from link kept Build.unkn Build.jcc Build.nop_with Build.nop
finalised_skipping = refl

abbrev nowhere : State
nowhere = record {
  instructions = [];
  offset = 0;
  pc = 0;
  memory = λ _. 0;
  registers = λ _. none;
  temporaries = λ _. none;
}

abbrev native : NativeInstruction
native = record { address = 4096; size = 4; mnemonic = "skip"; reil = [] }

finalise-Ends_example :
    Returns
      (finalise skipping)
      (λ r. (r ≡ finalised skipping.translation) × Ends 5 nowhere (record native { reil = r }))
finalise-Ends_example =
    finalise-Ends skipping 5 nowhere native skipping-IsSpaced skipping-IsOrdered (omega arith)
      (omega arith)
