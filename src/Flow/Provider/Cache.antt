-- ===== src/Flow/Provider/Cache.antt =====
-- The cache of an instruction provider does not show.
use mathlib.Core.Option.{some-injective}
use mathlib.Core.Path.{subst}
use reil.Base.{
  ℕ, ◌+◌, ◌-◌, ◌%◌, ◌<◌, ◌≡◌, ◌^◌, ◌==◌, ◌||◌, refl, sym, ap, ◌∙◌, Bool, true, false, ltb,
  if◌then◌else◌, arith, Option, some, none, List, [], ◌∷◌, Returns, inl, inr, Bool-cases,
  Option-cases, ==_iff,
}
use reil.Instruction.{NativeInstruction}
use reil.MemoryImage.{executable, read}
use reil.Flow.Containers.{find, change}
use reil.Flow.Provider.{InstructionProvider, put_at, kept, locked, translated, native_instruction}

module _ {V : Type 0} (P : ℕ → V → Type 0) where
  -- The predicate holds of each entry.
  abbrev pub Entries : List (ℕ × V) → Type 0
  Entries [] = Unit
  Entries ((k, v) ∷ m) = P k v × Entries m

  change-Entries :
      (k : ℕ) (v : V) (m : List (ℕ × V)) → P k v → Entries m → Entries (change k v (λ _. v) m)
  unfolding change
  change-Entries k v [] h hs = (h, tt)
  change-Entries k v ((j, w) ∷ m) h hs =
      let rest = change-Entries k v m h hs.1 in
      elim (Bool-cases (ltb k j)) [
        | inl before ↦ rw before (h, hs)
        | inr not_before ↦ elim (Bool-cases (j == k)) [
          | inl here ↦ rw (not_before, here) (h, hs.1)
          | inr behind ↦ rw (not_before, behind) (hs.0, rest)
        ]
      ]

  find-Entries : (k : ℕ) (m : List (ℕ × V)) (v : V) → Entries m → find k m ≡ some v → P k v
  unfolding find
  find-Entries k [] v hs e = absurd (cc)
  find-Entries k ((j, w) ∷ m) v hs e = elim (Bool-cases (j == k)) [
    | inl here ↦
        subst (λ n. P n v) ((==_iff j k).0 here)
          (subst (P j) (some-injective w v (rw here at e)) hs.0)
    | inr behind ↦ find-Entries k m v hs.1 (rw behind at e)
  ]

no_pointer : (ni : NativeInstruction) → ¬ (◌≡◌ {A = Option NativeInstruction} none (some ni))
no_pointer ni e = absurd (cc)

module _ (translate : ℕ → List ℕ → NativeInstruction) where
  -- Each entry of the cache is the translation at its address, which is executable.
  abbrev pub IsTranslation : InstructionProvider → ℕ → NativeInstruction → Type 0
  IsTranslation p a ni =
      (executable p.memory_image a 0 ≡ true) × (ni ≡ translate a (read p.memory_image a))

  abbrev pub IsConsistent : InstructionProvider → Type 0
  IsConsistent p = Entries (IsTranslation p) p.cache

  -- What `NativeInstruction` has to return.
  abbrev pub shown : InstructionProvider → ℕ → Option NativeInstruction
  shown p a =
      if executable p.memory_image a 0 then some (translate a (read p.memory_image a)) else none

  locked-shown :
      (others : ℕ → Bool) (p : InstructionProvider) (a : ℕ) (ni : NativeInstruction)
      → IsConsistent p
      → locked others p a ≡ some ni
      → some ni ≡ shown p a
  unfolding locked
  locked-shown others p a ni h e = elim (Option-cases (find a p.cache)) [
    | inl missing ↦ absurd (no_pointer ni (rw (missing, locked) at e))
    | inr (found, cached) ↦ elim (Bool-cases (kept a p.recent || others a)) [
      | inl alive ↦
          let entry = find-Entries (IsTranslation p) a p.cache found h cached in
          let same : found ≡ ni = some-injective found ni (rw (cached, alive, locked) at e) in
          rw entry.0 (ap (λ (n : NativeInstruction). some n) (sym same ∙ entry.1))
      | inr dead ↦ absurd (no_pointer ni (rw (cached, dead, locked) at e))
    ]
  ]

  translated-IsConsistent :
      (p : InstructionProvider) (a : ℕ)
      → IsConsistent p
      → p.index < 2 ^ 31 - 1
      → executable p.memory_image a 0 ≡ true
      → Returns (translated translate p a) (λ r. (r.0 ≡ shown p a) × IsConsistent r.1)
  unfolding translated
  translated-IsConsistent p a h lt allowed =
      let ni = translate a (read p.memory_image a) in
      let room : (p.index == 2 ^ 31 - 1) ≡ false = ground arith in
      (
        (
          some ni,
          record p {
            cache = change a ni (λ _. ni) p.cache;
            recent = put_at (p.index % 0x100) (some a) p.recent;
            index = p.index + 1;
          },
        ),
        rw room refl,
        (rw allowed refl, change-Entries (IsTranslation p) a ni p.cache (allowed, refl) h),
      )

  -- Whatever is kept alive elsewhere: from a provider whose cache has only translations of
  -- executable addresses, and whose count of slots has not reached the greatest `int`,
  -- `NativeInstruction` returns the translation at the address, or a null pointer where it is not
  -- executable, and leaves such a cache.
  pub native_instruction-IsConsistent :
      (others : ℕ → Bool) (p : InstructionProvider) (a : ℕ)
      → IsConsistent p
      → p.index < 2 ^ 31 - 1
      → Returns
          (native_instruction translate others p a)
          (λ r. (r.0 ≡ shown p a) × IsConsistent r.1)
  unfolding native_instruction
  native_instruction-IsConsistent others p a h lt = elim (Option-cases (locked others p a)) [
    | inr (ni, hit) ↦
        ((some ni, p), rw (hit, native_instruction) refl, (locked-shown others p a ni h hit, h))
    | inl miss ↦ elim (Bool-cases (executable p.memory_image a 0)) [
      | inl allowed ↦
          let t = translated-IsConsistent p a h lt allowed in
          (t.0, rw (miss, allowed, native_instruction) t.1, t.2)
      | inr banned ↦ ((none, p), rw (miss, banned, native_instruction) refl, (rw banned refl, h))
    ]
  ]
