-- ===== src/Interpreter/Memory.antt =====
-- `GetMemory` and `SetMemory`: what is written is read back, and nothing else is changed.

use reil.Base.{ℕ, ◌+◌, ◌^◌, ◌≤◌, ◌<◌, ◌≡◌, ◌≢◌, refl, ap₂, ◌∙◌, List, [], ◌∷◌, u64, length, arith}
use reil.Interpreter.{State, update, read_bytes, write_bytes, get_memory, set_memory}

-- The addresses of `n` bytes from index `i` on.
abbrev pub Covers : ℕ → ℕ → ℕ → ℕ → Type 0
Covers address i n k = (j : ℕ) × (i ≤ j) × (j < i + n) × (k ≡ u64 (address + j))

write_bytes-outside :
    (memory : ℕ → ℕ) (address i : ℕ) (bytes : List ℕ) (k : ℕ)
    → ¬ Covers address i (length bytes) k
    → write_bytes memory address i bytes k ≡ memory k
unfolding write_bytes
write_bytes-outside memory address i [] k out = refl
write_bytes-outside memory address i (b ∷ bytes) k out =
    write_bytes-outside (update memory (u64 (address + i)) b) address (i + 1) bytes k
      (λ (j, lo, hi, e). out (j, omega arith, omega arith, e))
    ∙ ground (arith, other)
  where
    other : k ≢ u64 (address + i)
    other e = out (i, omega arith, omega arith, e)

-- Two offsets below 2 ^ 64 with one address are equal.
same_offset : (a i j : ℕ) → i < 2 ^ 64 → j < 2 ^ 64 → u64 (a + i) ≡ u64 (a + j) → i ≡ j
same_offset a i j hi hj e = omega arith

read_bytes-write_bytes :
    (memory : ℕ → ℕ) (address i : ℕ) (bytes : List ℕ)
    → i + length bytes ≤ 2 ^ 64
    → read_bytes (write_bytes memory address i bytes) address i (length bytes) ≡ bytes
unfolding read_bytes write_bytes
read_bytes-write_bytes memory address i [] fits = refl
read_bytes-write_bytes memory address i (b ∷ bytes) fits =
    ap₂ ◌∷◌
      (write_bytes-outside (update memory (u64 (address + i)) b) address (i + 1) bytes
          (u64 (address + i))
          (λ (j, lo, hi, e).
            absurd (omega (arith, same_offset address i j (omega arith) (omega arith) e)))
        ∙ ground arith)
      (read_bytes-write_bytes (update memory (u64 (address + i)) b) address (i + 1) bytes
        (omega arith))

-- What `SetMemory` has written at an address, wrapping round the end of the address space,
-- `GetMemory` reads back; bytes at other addresses are left alone.
pub get_memory-set_memory :
    (s : State) (address : ℕ) (bytes : List ℕ)
    → length bytes ≤ 2 ^ 64
    → (get_memory (set_memory s address bytes) address (length bytes) ≡ bytes)
      × ((k : ℕ)
          → ¬ Covers address 0 (length bytes) k
          → (set_memory s address bytes).memory k ≡ s.memory k)
unfolding get_memory set_memory
get_memory-set_memory s address bytes fits = (
  read_bytes-write_bytes s.memory address 0 bytes (omega arith),
  λ k out. write_bytes-outside s.memory address 0 bytes k out,
)
