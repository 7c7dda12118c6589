-- ===== src/Disassembler/Functions/Starts.antt =====
-- A found function starts with an instruction of a prologue.
use reil.Base.{
  ℕ, suc, ◌+◌, ◌*◌, ◌<◌, ◌≡◌, refl, sym, ap, ◌∙◌, ◌⊎◌, inl, inr, Bool, true, false, not, ◌&&◌, ◌||◌,
  ◌==◌, ==_iff, if◌then◌else◌, List, [], ◌∷◌, length, drop, u64, arith, Run, ok, fault,
  check_failed, Returns, Bool-cases, check, ◌>>◌, ◌>>=◌,
}
use mathlib.Core.Path.{subst}
use native.Mathlib.Nat.{mod-lt, mod-eq_of_lt, mod-add-mod}
use reil.Base.{All, ◌^◌}
use reil.MemoryImage.{MemoryImage, Mapping}
use reil.Flow.Containers.{member}
use reil.Flow.Containers.Laws.{member-insert}
use reil.Disassembler.Aarch64.{word}
use reil.Disassembler.Aarch64.Addresses.{address_order}
use reil.Disassembler.Functions.{
  is_pac, is_sub, is_store, is_vector_store, is_frame, is_prologue, Scan, scan_word, scan_bytes,
  scan_mappings, find_functions,
}

-- A run that returns a result with `P`, or stops at a failed `DCHECK`.
abbrev pub Checked {ℓ κ} : {A : Type ℓ} → Run A → (A → Type κ) → Type (ℓ ⊔ κ)
Checked run P = (run ≡ fault check_failed) ⊎ Returns run P

-- While a match goes on, it has a start; and so has every result.
pub record IsScan (Start Result : ℕ → Type 0) (s : Scan) : Type 0 where
  pub matching : (s.pacsp || (s.sub || s.stp)) ≡ true → Start s.start_address
  pub found : (a : ℕ) → member a s.results ≡ true → Result a

by_test {ℓ} :
    {A : Type ℓ} (P : A → Type 0) (c : Bool) (a b : A)
    → (c ≡ true → P a)
    → (c ≡ false → P b)
    → P (if c then a else b)
by_test P true a b ha hb = ha refl
by_test P false a b ha hb = hb refl

module _ (Start Result : ℕ → Type 0) (ends : (a : ℕ) → Start a → Result a) where
  pac_word :
      (s : Scan) (address opcode : ℕ)
      → IsScan Start Result s
      → Start address
      → Checked
          (check (not s.sub && not s.stp) check_failed
            >> ok (record {
              start_address = address;
              pacsp = true;
              sub = false;
              stp = false;
              results = s.results;
            }))
          (IsScan Start Result)
  pac_word s address opcode i here = elim (Bool-cases (not s.sub && not s.stp)) [
    | inl fine ↦ rw fine (inr (_, refl, record { matching = λ m. here; found = i.found }))
    | inr bad ↦ rw bad (inl refl)
  ]

  scan_word-IsScan :
      (s : Scan) (address opcode : ℕ)
      → IsScan Start Result s
      → (is_prologue opcode ≡ true → Start address)
      → Checked (scan_word s address opcode) (IsScan Start Result)
  unfolding scan_word
  scan_word-IsScan s address opcode i here =
      let P : Run Scan → Type 0 = λ r. Checked r (IsScan Start Result) in
      let begun : (c : Bool)
          → (c ≡ true → Start address)
          → (c ≡ false → Start s.start_address)
          → Start (if c then address else s.start_address) =
        λ c a b. by_test Start c address s.start_address a b in
      by_test P (not s.pacsp && is_pac opcode) _ _
        (λ pac. pac_word s address opcode i (here (ground arith)))
        (λ _.
          by_test P (not s.sub && is_sub opcode) _ _
            (λ sub. inr (
              _,
              refl,
              record {
                matching = λ m.
                    begun (not s.pacsp) (λ n. here (ground arith)) (λ n. i.matching (ground arith));
                found = i.found;
              },
            ))
            (λ _.
              by_test P (is_store opcode) _ _
                (λ store. inr (
                  _,
                  refl,
                  record {
                    matching = λ m.
                        begun (not s.pacsp && (not s.sub && not s.stp)) (λ n. here (ground arith))
                          (λ n. i.matching (ground arith));
                    found = i.found;
                  },
                ))
                (λ _.
                  by_test P (is_vector_store opcode) _ _
                    (λ store. inr (
                      _,
                      refl,
                      record {
                        matching = λ m.
                            begun (not s.sub && not s.stp) (λ n. here (ground arith))
                              (λ n. i.matching (ground arith));
                        found = i.found;
                      },
                    ))
                    (λ _.
                      by_test P (s.stp && is_frame opcode) _ _
                        (λ frame. inr (
                          _,
                          refl,
                          record {
                            matching = λ m. absurd (ground arith);
                            found = λ a h. elim (Bool-cases (s.start_address == a)) [
                              | inl same ↦
                                  subst Result ((==_iff s.start_address a).0 same)
                                    (ends s.start_address (i.matching (ground arith)))
                              | inr other ↦
                                  i.found a
                                    (ground (arith, member-insert s.start_address a s.results))
                            ];
                          },
                        ))
                        (λ _.
                          by_test P (s.pacsp || (s.sub || s.stp)) _ _
                            (λ going. inr (
                              _,
                              refl,
                              record { matching = λ m. absurd (ground arith); found = i.found },
                            ))
                            (λ _. inr (s, refl, i)))))))

bind-Checked {ℓ} :
    {A B : Type 0} {P : A → Type ℓ} {Q : B → Type ℓ} (run : Run A) (f : A → Run B)
    → Checked run P
    → ((x : A) → P x → Checked (f x) Q)
    → Checked (run >>= f) Q
bind-Checked {Q = Q} run f c next = elim c [
  | inl bad ↦ inl (ap (λ r. r >>= f) bad)
  | inr r ↦ subst (λ m. Checked (m >>= f) Q) (sym r.1) (next r.0 r.2)
]

-- The instruction at `a`, one of the words of `bytes` but the last, may start a function.
abbrev pub StartIn : ℕ → List ℕ → ℕ → Type 0
StartIn address bytes a =
    (i : ℕ) × (a ≡ u64 (address + 4 * i))
    × (4 * i + 4 < length bytes)
    × (is_prologue (word (drop (4 * i) bytes)) ≡ true)

later_start :
    (address a b0 b1 b2 b3 : ℕ) (rest : List ℕ)
    → StartIn (u64 (address + 4)) rest a
    → StartIn address (b0 ∷ b1 ∷ b2 ∷ b3 ∷ rest) a
later_start address a b0 b1 b2 b3 rest (i, e, lt, p) =
    let four : 4 * suc i ≡ suc (suc (suc (suc (4 * i)))) = omega arith in
    (
      suc i,
      e ∙ mod-add-mod (address + 4) (2 ^ 64) (4 * i) ∙ ap u64 (omega arith),
      omega arith,
      rw four p,
    )

module _ (Start Result : ℕ → Type 0) (ends : (a : ℕ) → Start a → Result a) where
  scan_bytes-IsScan :
      (s : Scan) (address : ℕ) (bytes : List ℕ)
      → address < 2 ^ 64
      → IsScan Start Result s
      → ((a : ℕ) → StartIn address bytes a → Start a)
      → Checked (scan_bytes s address bytes) (IsScan Start Result)
  unfolding scan_bytes
  scan_bytes-IsScan s address (b0 ∷ b1 ∷ b2 ∷ b3 ∷ b4 ∷ rest) lt i here =
      bind-Checked (scan_word s address (word (b0 ∷ b1 ∷ b2 ∷ b3 ∷ []))) _
        (scan_word-IsScan Start Result ends s address (word (b0 ∷ b1 ∷ b2 ∷ b3 ∷ [])) i
          (λ p. here address (0, sym (ap u64 (omega arith) ∙ mod-eq_of_lt lt), omega arith, p)))
        (λ t j.
          scan_bytes-IsScan t (u64 (address + 4)) (b4 ∷ rest) (mod-lt (address + 4) (omega arith)) j
            (λ a k. here a (later_start address a b0 b1 b2 b3 (b4 ∷ rest) k)))
  scan_bytes-IsScan s address [] lt i here = inr (s, refl, i)
  scan_bytes-IsScan s address (b0 ∷ []) lt i here = inr (s, refl, i)
  scan_bytes-IsScan s address (b0 ∷ b1 ∷ []) lt i here = inr (s, refl, i)
  scan_bytes-IsScan s address (b0 ∷ b1 ∷ b2 ∷ []) lt i here = inr (s, refl, i)
  scan_bytes-IsScan s address (b0 ∷ b1 ∷ b2 ∷ b3 ∷ []) lt i here = inr (s, refl, i)

-- A mapping that may be executed has such an instruction.
abbrev pub StartInAny : List Mapping → ℕ → Type 0
StartInAny [] a = ⊥
StartInAny (m ∷ ms) a = ((m.executable ≡ true) × StartIn m.address m.bytes a) ⊎ StartInAny ms a

scan_mappings-Checked :
    (Result : ℕ → Type 0) (results : List ℕ) (ms : List Mapping)
    → All (λ m. m.address < 2 ^ 64) ms
    → ((a : ℕ) → member a results ≡ true → Result a)
    → ((a : ℕ) → StartInAny ms a → Result a)
    → Checked (scan_mappings results ms) (λ found. (a : ℕ) → member a found ≡ true → Result a)
unfolding scan_mappings
scan_mappings-Checked Result results [] lt old new = inr (results, refl, old)
scan_mappings-Checked Result results (m ∷ ms) lt old new =
    let Q : Run (List ℕ) → Type 0 =
      λ r. Checked r (λ found. (a : ℕ) → member a found ≡ true → Result a) in
    by_test Q m.executable _ _
      (λ x.
        bind-Checked
          (scan_bytes
            (record {
              start_address = 0;
              pacsp = false;
              sub = false;
              stp = false;
              results = results;
            })
            m.address m.bytes)
          _
          (scan_bytes-IsScan (StartIn m.address m.bytes) Result (λ a k. new a (inl (x, k))) _
            m.address m.bytes lt.0 (record { matching = λ no. absurd (ground arith); found = old })
            (λ a k. k))
          (λ s i. scan_mappings-Checked Result s.results ms lt.1 i.found (λ a k. new a (inr k))))
      (λ _. scan_mappings-Checked Result results ms lt.1 old (λ a k. new a (inr k)))

no_member : (x : ℕ) → member x [] ≡ true → ⊥
unfolding member
no_member x h = ground arith

-- For an image whose mappings have addresses of 64 bits: the search for functions returns or stops
-- at its `DCHECK`, and each address that it returns is that of a word, not the last one, of a
-- mapping that may be executed, which is a `paciasp`, `pacibsp`, `sub sp` or `stp` on the stack.
pub find_functions-StartInAny :
    (image : MemoryImage)
    → All (λ m. m.address < 2 ^ 64) image.mappings
    → Checked
        (find_functions image)
        (λ found. (a : ℕ) → member a found ≡ true → StartInAny image.mappings a)
unfolding find_functions
find_functions-StartInAny image lt =
    scan_mappings-Checked (StartInAny image.mappings) [] image.mappings lt
      (λ a h. absurd (no_member a h)) (λ a k. k)
