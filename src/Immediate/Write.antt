-- ===== src/Immediate/Write.antt =====
-- Writes at an index, and the bytes below and above it.
use reil.Base.{
  sym, ℕ, zero, suc, ◌+◌, ◌*◌, ◌^◌, ◌<◌, ◌≤◌, ◌≡◌, refl, ap, ap₂, ◌∙◌, List, [], ◌∷◌, ◌++◌, length,
  get_or, set, take, drop, All, arith,
}
use reil.Immediate.{IsByte, value}
use reil.Immediate.Value.{value-take-suc}

pub take-set : (a : List ℕ) (i v : ℕ) → take i (set a i v) ≡ take i a
take-set [] i v = refl
take-set (x ∷ a) zero v = refl
take-set (x ∷ a) (suc i) v = ap (λ t. x ∷ t) (take-set a i v)

pub drop-suc-set : (a : List ℕ) (i v : ℕ) → drop (suc i) (set a i v) ≡ drop (suc i) a
drop-suc-set [] i v = refl
drop-suc-set (x ∷ a) zero v = refl
drop-suc-set (x ∷ a) (suc i) v = drop-suc-set a i v

pub get_or-set : (a : List ℕ) (i v : ℕ) → i < length a → get_or (set a i v) i 0 ≡ v
get_or-set [] i v h = absurd (omega arith)
get_or-set (x ∷ a) zero v h = refl
get_or-set (x ∷ a) (suc i) v h = get_or-set a i v (omega arith)

pub All-set : (a : List ℕ) (i v : ℕ) → All IsByte a → IsByte v → All IsByte (set a i v)
All-set [] i v h hv = tt
All-set (x ∷ a) zero v h hv = (hv, h.1)
All-set (x ∷ a) (suc i) v h hv = (h.0, All-set a i v h.1 hv)

-- A write at the index that follows the bytes written so far.
pub value-take-set :
    (a : List ℕ) (i v : ℕ)
    → i < length a
    → value (take (suc i) (set a i v)) ≡ value (take i a) + 256 ^ i * v
value-take-set a i v h =
    value-take-suc i (set a i v)
    ∙ ap₂ (λ s t. value s + 256 ^ i * t) (take-set a i v) (get_or-set a i v h)

pub take-suc-set :
    (a : List ℕ) (i v : ℕ) → i < length a → take (suc i) (set a i v) ≡ take i a ++ v ∷ []
take-suc-set [] i v h = absurd (omega arith)
take-suc-set (x ∷ a) zero v h = refl
take-suc-set (x ∷ a) (suc i) v h = ap (λ t. x ∷ t) (take-suc-set a i v (omega arith))

pub drop-set : (a : List ℕ) (n i v : ℕ) → i < n → drop n (set a i v) ≡ drop n a
drop-set [] n i v h = refl
drop-set (x ∷ a) zero i v h = absurd (omega arith)
drop-set (x ∷ a) (suc n) zero v h = refl
drop-set (x ∷ a) (suc n) (suc i) v h = drop-set a n i v (omega arith)

pub drop-suc : (i : ℕ) (a : List ℕ) → drop (suc i) a ≡ drop 1 (drop i a)
drop-suc zero a = refl
drop-suc (suc i) [] = refl
drop-suc (suc i) (x ∷ a) = drop-suc i a

pub get_or-drop : (i : ℕ) (a : List ℕ) → get_or (drop i a) 0 0 ≡ get_or a i 0
get_or-drop zero a = refl
get_or-drop (suc i) [] = refl
get_or-drop (suc i) (x ∷ a) = get_or-drop i a

pub value-drop-suc :
    (i : ℕ) (a : List ℕ) → value (drop i a) ≡ get_or a i 0 + 256 * value (drop (suc i) a)
value-drop-suc zero [] = omega arith
value-drop-suc zero (x ∷ a) = omega arith
value-drop-suc (suc i) [] = omega arith
value-drop-suc (suc i) (x ∷ a) = value-drop-suc i a

pub get_or-take : (n i : ℕ) (a : List ℕ) → i < n → get_or (take n a) i 0 ≡ get_or a i 0
get_or-take zero i a h = absurd (omega arith)
get_or-take (suc n) i [] h = refl
get_or-take (suc n) zero (x ∷ a) h = refl
get_or-take (suc n) (suc i) (x ∷ a) h = get_or-take n i a (omega arith)

pub take-take : (m n : ℕ) (a : List ℕ) → m ≤ n → take m (take n a) ≡ take m a
take-take zero n a h = refl
take-take (suc m) zero a h = absurd (omega arith)
take-take (suc m) (suc n) [] h = refl
take-take (suc m) (suc n) (x ∷ a) h = ap (λ t. x ∷ t) (take-take m n a (omega arith))

-- What two lists with the same rest hold at its start.
pub read_rest : (i : ℕ) (out a : List ℕ) → drop i out ≡ drop i a → get_or out i 0 ≡ get_or a i 0
read_rest i out a e = sym (get_or-drop i out) ∙ ap (λ t. get_or t 0 0) e ∙ get_or-drop i a
