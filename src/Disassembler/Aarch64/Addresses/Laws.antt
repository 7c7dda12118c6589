-- ===== src/Disassembler/Aarch64/Addresses/Laws.antt =====
-- Counting the elements of a set of addresses.
use reil.Base.{ℕ, suc, ◌+◌, ◌≤◌, ◌<◌, ◌≡◌, refl, false, ◌||◌, arith, List, [], ◌∷◌, length, All}
use reil.Flow.Containers.{member, insert}
use reil.Flow.Containers.Laws.{member-insert}
use reil.Disassembler.Aarch64.Addresses.{address_order, insert_all}

-- The elements ascend, from `low` on, and stay below `high`.
abbrev pub IsAscending : ℕ → ℕ → List ℕ → Type 0
IsAscending low high [] = Unit
IsAscending low high (a ∷ s) = (low ≤ a) × ((a < high) × IsAscending (suc a) high s)

pub length-IsAscending :
    (low high : ℕ) (s : List ℕ) → low ≤ high → IsAscending low high s → length s + low ≤ high
length-IsAscending low high [] le h = omega arith
length-IsAscending low high (a ∷ s) le h =
    omega (arith, length-IsAscending (suc a) high s (omega (arith, h.1.0)) h.1.1, h.0)

pub insert-IsAscending :
    (low high e : ℕ) (s : List ℕ)
    → low ≤ e
    → e < high
    → IsAscending low high s
    → IsAscending low high (insert e s)
unfolding insert
insert-IsAscending low high e [] le lt h = (le, (lt, tt))
insert-IsAscending low high e (a ∷ s) le lt h = ground (arith, insert-IsAscending (suc a) high e s)

pub length-insert_new :
    (e : ℕ) (s : List ℕ) → member e s ≡ false → length (insert e s) ≡ suc (length s)
unfolding insert member
length-insert_new e [] new = refl
length-insert_new e (a ∷ s) new = ground (arith, length-insert_new e s)

pub length-insert_le : (e : ℕ) (s : List ℕ) → length (insert e s) ≤ suc (length s)
unfolding insert
length-insert_le e [] = omega arith
length-insert_le e (a ∷ s) = ground (arith, length-insert_le e s)

pub insert-All {κ} : (P : ℕ → Type κ) (e : ℕ) (s : List ℕ) → P e → All P s → All P (insert e s)
unfolding insert
insert-All P e [] h hs = (h, tt)
insert-All P e (a ∷ s) h hs = ground (arith, insert-All P e s)

pub member-insert_all :
    (x : ℕ) (more s : List ℕ) → member x (insert_all more s) ≡ member x more || member x s
unfolding member
member-insert_all x [] s = refl
member-insert_all x (a ∷ more) s =
    ground (arith, member-insert_all x more (insert a s), member-insert a x s)

pub insert_all-All {κ} :
    (P : ℕ → Type κ) (more s : List ℕ) → All P more → All P s → All P (insert_all more s)
insert_all-All P [] s h hs = hs
insert_all-All P (a ∷ more) s h hs =
    insert_all-All P more (insert a s) h.1 (insert-All P a s h.0 hs)

pub length-insert_all : (more s : List ℕ) → length (insert_all more s) ≤ length more + length s
length-insert_all [] s = omega arith
length-insert_all (a ∷ more) s =
    omega (arith, length-insert_all more (insert a s), length-insert_le a s)
