-- ===== src/Flow/Native/Blocks/Keys.antt =====
-- The keys of a map: the first one that is not below a bound, and the keys from the last one down.

use mathlib.Core.List.{reverse, reverse_aux}
use reil.Base.{
  ℕ, ◌≤◌, ◌<◌, ◌≡◌, refl, Bool, true, false, ◌||◌, none, some, List, [], ◌∷◌, ◌==◌, if◌then◌else◌,
  arith,
}
use reil.Flow.Containers.{lower_bound, IsAbove, IsSorted}
use reil.Flow.Edge.{NativeEdge}
use reil.Flow.Native.{EdgeMap}

unfoldable pub has_key : ℕ → EdgeMap → Bool
has_key k [] = false
has_key k ((j, s) ∷ m) = if j == k then true else has_key k m

-- Every key is below `k`.
abbrev pub IsBelow : ℕ → EdgeMap → Type 0
IsBelow k [] = Unit
IsBelow k ((j, s) ∷ m) = (j < k) × IsBelow k m

abbrev pub IsDescending : EdgeMap → Type 0
IsDescending [] = Unit
IsDescending ((k, s) ∷ m) = IsBelow k m × IsDescending m

has_key-IsAbove : (k j : ℕ) (m : EdgeMap) → IsAbove j m → k ≤ j → has_key k m ≡ false
unfolding has_key
has_key-IsAbove k j [] h le = refl
has_key-IsAbove k j ((i, s) ∷ m) h le = ground (arith, has_key-IsAbove k j m)

pub has_key-IsBelow : (k j : ℕ) (m : EdgeMap) → IsBelow j m → j ≤ k → has_key k m ≡ false
unfolding has_key
has_key-IsBelow k j [] h le = refl
has_key-IsBelow k j ((i, s) ∷ m) h le = ground (arith, has_key-IsBelow k j m)

pub lower_bound-none :
    (k : ℕ) (m : EdgeMap)
    → IsSorted m
    → lower_bound k m ≡ none
    → (j : ℕ) → k ≤ j
    → has_key j m ≡ false
unfolding has_key lower_bound
lower_bound-none k [] s e j le = refl
lower_bound-none k ((i, v) ∷ m) s e j le =
    ground (arith, λ (q : lower_bound k m ≡ none). lower_bound-none k m s.1 q j le)

pub lower_bound-some :
    (k b : ℕ) (m : EdgeMap) → IsSorted m → lower_bound k m ≡ some b → (has_key b m ≡ true) × (k ≤ b)
unfolding has_key lower_bound
lower_bound-some k b [] s e = ground arith
lower_bound-some k b ((i, v) ∷ m) s e = ground (arith, lower_bound-some k b m s.1)

pub lower_bound-first :
    (k b : ℕ) (m : EdgeMap)
    → IsSorted m
    → lower_bound k m ≡ some b
    → (j : ℕ) → k ≤ j
    → j < b
    → has_key j m ≡ false
unfolding has_key lower_bound
lower_bound-first k b [] s e j le lt = refl
lower_bound-first k b ((i, v) ∷ m) s e j le lt = ground (
  arith,
  λ (q : lower_bound k m ≡ some b). lower_bound-first k b m s.1 q j le lt,
  has_key-IsAbove j i m s.0,
)

-- Every key of `m` is above every key of `r`.
Over : EdgeMap → EdgeMap → Type 0
Over [] r = Unit
Over ((k, v) ∷ m) r = IsBelow k r

pub IsBelow-trans : (j k : ℕ) (r : EdgeMap) → k ≤ j → IsBelow k r → IsBelow j r
IsBelow-trans j k [] le h = tt
IsBelow-trans j k ((i, v) ∷ r) le h = (omega (arith, h.0), IsBelow-trans j k r le h.1)

Over-step :
    (k : ℕ) (v : List NativeEdge) (m r : EdgeMap) → IsAbove k m → IsBelow k r → Over m ((k, v) ∷ r)
unfolding Over
Over-step k v [] r a b = tt
Over-step k v ((j, w) ∷ m) r a b = (a.0, IsBelow-trans j k r (omega (arith, a.0)) b)

reverse_aux-IsDescending :
    (m r : EdgeMap) → IsSorted m → Over m r → IsDescending r → IsDescending (reverse_aux m r)
unfolding Over
reverse_aux-IsDescending [] r s o d = d
reverse_aux-IsDescending ((k, v) ∷ m) r s o d =
    reverse_aux-IsDescending m ((k, v) ∷ r) s.1 (Over-step k v m r s.0 o) (o, d)

has_key-reverse_aux :
    (k : ℕ) (m r : EdgeMap) → has_key k (reverse_aux m r) ≡ has_key k m || has_key k r
unfolding has_key
has_key-reverse_aux k [] r = refl
has_key-reverse_aux k ((j, v) ∷ m) r = ground (arith, has_key-reverse_aux k m ((j, v) ∷ r))

pub reverse-IsDescending : (m : EdgeMap) → IsSorted m → IsDescending (reverse m)
unfolding Over
reverse-IsDescending [] s = tt
reverse-IsDescending ((k, v) ∷ m) s = reverse_aux-IsDescending ((k, v) ∷ m) [] s tt tt

pub has_key-reverse : (k : ℕ) (m : EdgeMap) → has_key k (reverse m) ≡ has_key k m
unfolding has_key
has_key-reverse k m = ground (arith, has_key-reverse_aux k m [])

pub IsBelow-reverse_aux :
    (b : ℕ) (m r : EdgeMap) → IsBelow b m → IsBelow b r → IsBelow b (reverse_aux m r)
IsBelow-reverse_aux b [] r h t = t
IsBelow-reverse_aux b ((k, v) ∷ m) r h t = IsBelow-reverse_aux b m ((k, v) ∷ r) h.1 (h.0, t)
