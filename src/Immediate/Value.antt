-- ===== src/Immediate/Value.antt =====
-- The number that a sequence of bytes stands for: parts, bounds and uniqueness.
use native.Mathlib.Nat.{pow-suc, one-le-pow, add-mul-mod_self_left, mod-eq_of_lt}
use reil.Base.{
  ℕ, zero, suc, ◌+◌, ◌*◌, ◌/◌, ◌%◌, ◌^◌, ◌<◌, ◌≡◌, refl, ap, ap₂, List, [], ◌∷◌, ◌++◌, length,
  get_or, take, drop, replicate, All, arith, sym, ◌∙◌,
}
use reil.Immediate.{value, object_bytes, IsByte}

pub value-append : (a b : List ℕ) → value (a ++ b) ≡ value a + 256 ^ length a * value b
value-append [] b = omega arith
value-append (x ∷ a) b =
    omega (arith, value-append a b, ap (λ (t : ℕ). t * value b) (pow-suc 256 (length a)))

pub value-replicate_zero : (n : ℕ) → value (replicate n 0) ≡ 0
value-replicate_zero zero = refl
value-replicate_zero (suc n) = omega (arith, value-replicate_zero n)

pub value-replicate_ones : (n : ℕ) → value (replicate n 255) + 1 ≡ 256 ^ n
value-replicate_ones zero = refl
value-replicate_ones (suc n) = omega (arith, value-replicate_ones n, pow-suc 256 n)

pub value-lt : (a : List ℕ) → All IsByte a → value a < 256 ^ length a
value-lt [] h = omega arith
value-lt (x ∷ a) h = omega (arith, value-lt a h.1, pow-suc 256 (length a))

pub length-object_bytes : (n v : ℕ) → length (object_bytes n v) ≡ n
length-object_bytes zero v = refl
length-object_bytes (suc n) v = ap suc (length-object_bytes n (v / 256))

pub object_bytes-All : (n v : ℕ) → All IsByte (object_bytes n v)
object_bytes-All zero v = tt
object_bytes-All (suc n) v = (omega arith, object_bytes-All n (v / 256))

pub value-object_bytes : (n v : ℕ) → v < 256 ^ n → value (object_bytes n v) ≡ v
value-object_bytes zero v h = omega arith
value-object_bytes (suc n) v h =
    omega (arith, value-object_bytes n (v / 256) (omega (arith, pow-suc 256 n)))

-- Bytes are determined by their number and their value.
pub value_injective :
    (a b : List ℕ) → All IsByte a → All IsByte b → length a ≡ length b → value a ≡ value b → a ≡ b
value_injective [] [] ha hb l e = refl
value_injective [] (y ∷ b) ha hb l e = absurd (omega arith)
value_injective (x ∷ a) [] ha hb l e = absurd (omega arith)
value_injective (x ∷ a) (y ∷ b) ha hb l e =
    ap₂ ◌∷◌ (omega arith) (value_injective a b ha.1 hb.1 (omega arith) (omega arith))

-- A quotient and a remainder that fit are those of the division.
pub mod_unique : (m q r : ℕ) → r < m → (r + m * q) % m ≡ r
mod_unique m q r h = add-mul-mod_self_left r m q ∙ mod-eq_of_lt h

pub value-take-drop : (n : ℕ) (a : List ℕ) → value a ≡ value (take n a) + 256 ^ n * value (drop n a)
value-take-drop zero a = omega arith
value-take-drop (suc n) [] = omega arith
value-take-drop (suc n) (x ∷ a) =
    omega (arith, value-take-drop n a, ap (λ (t : ℕ). t * value (drop n a)) (pow-suc 256 n))

pub value-take-lt : (n : ℕ) (a : List ℕ) → All IsByte a → value (take n a) < 256 ^ n
value-take-lt zero a h = omega arith
value-take-lt (suc n) [] h = omega (arith, pow-suc 256 n, one-le-pow n 256)
value-take-lt (suc n) (x ∷ a) h = omega (arith, value-take-lt n a h.1, pow-suc 256 n)

pub value-take : (n : ℕ) (a : List ℕ) → All IsByte a → value (take n a) ≡ value a % 256 ^ n
value-take n a h = sym (
    ap (λ (t : ℕ). t % 256 ^ n) (value-take-drop n a)
    ∙ mod_unique (256 ^ n) (value (drop n a)) (value (take n a)) (value-take-lt n a h))

pub value-drop : (n : ℕ) (a : List ℕ) → All IsByte a → value (drop n a) ≡ value a / 256 ^ n
value-drop n a h = grind (arith, value-take-drop n a, value-take-lt n a h)

-- Longer lists of zeros behind do not change the value.
pub value-append_zeros : (a : List ℕ) (n : ℕ) → value (a ++ replicate n 0) ≡ value a
value-append_zeros a n = rw (value-append, value-replicate_zero) (omega arith)

pub All-get_or : (a : List ℕ) (i : ℕ) → All IsByte a → IsByte (get_or a i 0)
All-get_or [] i h = omega arith
All-get_or (x ∷ a) zero h = h.0
All-get_or (x ∷ a) (suc i) h = All-get_or a i h.1

pub value-take-suc :
    (n : ℕ) (a : List ℕ) → value (take (suc n) a) ≡ value (take n a) + 256 ^ n * get_or a n 0
value-take-suc zero [] = omega arith
value-take-suc (suc n) [] = omega arith
value-take-suc zero (x ∷ a) = omega arith
value-take-suc (suc n) (x ∷ a) =
    omega (arith, value-take-suc n a, ap (λ (t : ℕ). t * get_or a n 0) (pow-suc 256 n))
