-- ===== src/Immediate/Convert.antt =====
-- What the constructors, the resizing operations and the conversions do to the value.
use native.Mathlib.Nat.{mod-le, mod-eq_of_lt, pow-le-pow_right, mul-le-mul_left}
use mathlib.Core.List.{append-nil}
use reil.Base.{
  ℕ, zero, suc, ◌+◌, ◌-◌, ◌*◌, ◌/◌, ◌%◌, ◌^◌, ◌≤◌, ◌<◌, min, ◌≡◌, refl, ap, sym, ◌∙◌, true, false,
  List, [], ◌∷◌, ◌++◌, ltb, leb, ◌==◌, bit_and, not, if◌then◌else◌, inl, inr, Bool-cases, lt→ltb,
  u16, le→ltb, length, get_or, take, drop, replicate, All, memcpy, memset, ok, Returns, arith,
  length-append, length-take, length-replicate, take_all, drop_all, drop-replicate, All-append,
  All-take, take-append_self, le→leb, All-replicate,
}
use reil.Base.Powers.{pow-add, passes, passes_at}
use reil.Immediate.{
  to_uint64, Immediate, IsByte, value, object_bytes, from_value, resize, zeros, sign_extend,
  to_bool, any_set, all_rounds, to_uint,
}
use reil.Immediate.Write.{value-drop-suc}
use reil.Immediate.Value.{
  All-get_or, value-append, value-append_zeros, value-lt, value-object_bytes, value-take,
  value-take-drop, value-take-lt, object_bytes-All, value-replicate_ones,
}

-- `Bytes n v a`: `a` is `n` bytes of value `v`.
pub record Bytes (n v : ℕ) (a : List ℕ) : Type 0 where
  pub long : length a ≡ n
  pub bytes : All IsByte a
  pub valued : value a ≡ v

-- A copy of `n` bytes into zeros: the first ones of `src`, and zeros behind.
copy_short :
    (n : ℕ) (src : List ℕ)
    → All IsByte src
    → n ≤ length src
    → Bytes n (value src % 256 ^ n) (memcpy (zeros n) src n)
copy_short n src h fits =
    rw (drop_all (zeros n) n (rw length-replicate (omega arith)), append-nil)
      (record {
        long = omega (arith, length-take n src);
        bytes = All-take IsByte n src h;
        valued = value-take n src h;
      })

padded :
    (n : ℕ) (src : List ℕ)
    → length src ≤ n
    → memcpy (memset (zeros n) 0 0 n) src (length src) ≡ src ++ zeros (n - length src)
padded n src fits = rw (cleared, take_all src (length src) (omega arith), drop-replicate)
  where
    cleared : memset (zeros n) 0 0 n ≡ zeros n
    cleared =
        ap (λ t. zeros n ++ t)
          (drop_all (zeros n) (0 + n) (omega (arith, length-replicate {A = ℕ} n 0)))
        ∙ append-nil _

copy_long :
    (n : ℕ) (src : List ℕ)
    → All IsByte src
    → length src ≤ n
    → Bytes n (value src) (memcpy (memset (zeros n) 0 0 n) src (length src))
copy_long n src h fits = rw (padded n src fits) (record {
  long = rw (length-append, length-replicate) (omega arith);
  bytes =
      All-append IsByte src (zeros (n - length src)) h
        (All-replicate IsByte (n - length src) 0 (omega arith));
  valued = value-append_zeros src (n - length src);
})

-- The constructor from a size and a number has the bytes that the size asks for, and the number's
-- value up to that size.
pub from_value_lem : (s v : ℕ) → v < 2 ^ 64 → Bytes (s / 8) (v % 256 ^ (s / 8)) (from_value s v)
unfolding from_value
from_value_lem s v h = elim (Bool-cases (ltb (s / 8) 8)) [
  | inl short ↦ rw short (
      rw (value-object_bytes 8 v h) at
        (copy_short (s / 8) (object_bytes 8 v) (object_bytes-All 8 v) (ground arith)))
  | inr long ↦
      rw (long, mod-eq_of_lt (fits (ground arith)))
        (rw (value-object_bytes 8 v h) at
          (copy_long (s / 8) (object_bytes 8 v) (object_bytes-All 8 v) (ground arith)))
]
  where
    fits : 8 ≤ s / 8 → v < 256 ^ (s / 8)
    fits l = omega (arith, pow-le-pow_right {n = 256} (omega arith) l)

-- Resizing keeps the low bytes and adds zeros above.
pub resize_lem :
    (s : ℕ) (a : Immediate) → All IsByte a → Bytes (s / 8) (value a % 256 ^ (s / 8)) (resize s a)
unfolding resize
resize_lem s a h = elim (Bool-cases (ltb (s / 8) (length a))) [
  | inl short ↦ rw short (copy_short (s / 8) a h (ground arith))
  | inr long ↦ rw (long, mod-eq_of_lt (fits (ground arith))) (copy_long (s / 8) a h (ground arith))
]
  where
    fits : length a ≤ s / 8 → value a < 256 ^ (s / 8)
    fits l = omega (arith, value-lt a h, pow-le-pow_right {n = 256} (omega arith) l)

-- The sign bit of a byte.
sign_table :
    passes 256 (λ b. if ltb b 128 then bit_and b 0x80 == 0 else not (bit_and b 0x80 == 0)) ≡ true
sign_table = refl

pub sign_bit : (b : ℕ) → IsByte b → (bit_and b 0x80 == 0) ≡ ltb b 128
sign_bit b h = ground (
  arith,
  passes_at 256 (λ x. if ltb x 128 then bit_and x 0x80 == 0 else not (bit_and x 0x80 == 0)) b
      sign_table h,
)

drop_last : (a : List ℕ) (n : ℕ) → length a ≡ suc n → drop n a ≡ get_or a n 0 ∷ []
drop_last [] n e = absurd (omega arith)
drop_last (x ∷ []) zero e = refl
drop_last (x ∷ y ∷ a) zero e = absurd (omega arith)
drop_last (x ∷ a) (suc n) e = drop_last a n (omega arith)

top_digit : (p b lo v : ℕ) → v ≡ lo + p * b → lo < p → ltb b 128 ≡ ltb v (128 * p)
top_digit p b lo v e low = elim (Bool-cases (ltb b 128)) [
  | inl y ↦ rw (y, lt→ltb v (128 * p) (omega (arith, mul-le-mul_left p (le-below b y))))
  | inr n ↦ rw (n, le→ltb v (128 * p) (omega (arith, mul-le-mul_left p (le-above b n))))
]
  where
    le-below : (b : ℕ) → ltb b 128 ≡ true → b ≤ 127
    le-below b y = ground arith

    le-above : (b : ℕ) → ltb b 128 ≡ false → 128 ≤ b
    le-above b y = ground arith

-- The last byte is below 128 exactly when the value is in the lower half of the range.
pub last_byte :
    (a : List ℕ) (n : ℕ)
    → All IsByte a
    → length a ≡ suc n
    → ltb (get_or a n 0) 128 ≡ ltb (value a) (128 * 256 ^ n)
last_byte a n h e =
    top_digit (256 ^ n) (get_or a n 0) (value (take n a)) (value a)
      (omega (arith, value-take-drop n a, ap (λ (t : List ℕ). 256 ^ n * value t) (drop_last a n e)))
      (value-take-lt n a h)

-- Ones over the bytes above an immediate add what is missing to the wider range.
ones_above :
    (a : List ℕ) (m : ℕ)
    → All IsByte a
    → length a ≤ m
    → Bytes m (value a + 256 ^ m - 256 ^ length a) (a ++ replicate (m - length a) 255)
ones_above a m h fits = record {
  long = rw (length-append, length-replicate) (omega arith);
  bytes =
      All-append IsByte a (replicate (m - length a) 255) h
        (All-replicate IsByte (m - length a) 255 (omega arith));
  valued = rw value-append (
      omega (
        arith,
        ap (λ (t : ℕ). 256 ^ length a * t) (value-replicate_ones (m - length a)),
        pow-add 256 (length a) (m - length a),
        ap (λ (t : ℕ). 256 ^ t) whole,
      ));
}
  where
    whole : length a + (m - length a) ≡ m
    whole = omega arith

-- `sign_extend` overwrites the zeros that resizing to a larger size has put above.
overwritten :
    (a : List ℕ) (m : ℕ)
    → length a ≤ m
    → memset (a ++ zeros (m - length a)) (length a) 255 (m - length a)
      ≡ a ++ replicate (m - length a) 255
overwritten a m fits = rw (
  take-append_self,
  drop_all (a ++ zeros (m - length a)) (length a + (m - length a)) short,
  append-nil,
)
  where
    short : length (a ++ zeros (m - length a)) ≤ length a + (m - length a)
    short = rw (length-append, length-replicate) (omega arith)

resize_longer :
    (s : ℕ) (a : Immediate) → length a ≤ s / 8 → resize s a ≡ a ++ zeros (s / 8 - length a)
unfolding resize
resize_longer s a fits = rw (le→ltb (s / 8) (length a) fits) (padded (s / 8) a fits)

-- The value of an immediate of `n` bytes as a two's complement number, in `m` bytes.
abbrev pub signed_value : ℕ → ℕ → ℕ → ℕ
signed_value n m v = if ltb v (128 * 256 ^ (n - 1)) then v else v + 256 ^ m - 256 ^ n

-- Sign extension of a value of at least one byte to a size that is not smaller keeps the number
-- that the bytes stand for in two's complement.
pub sign_extend-signed :
    (a : Immediate) (s : ℕ)
    → All IsByte a
    → 0 < length a
    → length a ≤ s / 8
    → Returns (sign_extend a s) (Bytes (s / 8) (signed_value (length a) (s / 8) (value a)))
unfolding sign_extend
sign_extend-signed a s h pos fits = elim (Bool-cases (ltb (value a) (128 * 256 ^ (length a - 1)))) [
  | inl plus ↦ (
    a ++ zeros (s / 8 - length a),
    rw (nonempty, top ∙ plus) (ap ok (resize_longer s a fits)),
    rw plus (rw kept at (rw (resize_longer s a fits) at (resize_lem s a h))),
  )
  | inr minus ↦ (
    a ++ replicate (s / 8 - length a) 255,
    rw
        (
          nonempty,
          top ∙ minus,
          resize_longer s a fits,
          le→leb (length a) (length (a ++ zeros (s / 8 - length a)))
              (rw length-append (omega arith)),
          longer,
        )
        (ap ok (overwritten a (s / 8) fits)),
    rw minus (ones_above a (s / 8) h fits),
  )
]
  where
    nonempty : (length a == 0) ≡ false
    nonempty = ground arith

    top :
        (bit_and (get_or a (length a - 1) 0) 0x80 == 0) ≡ ltb (value a) (128 * 256 ^ (length a - 1))
    top =
        sign_bit (get_or a (length a - 1) 0) (All-get_or a (length a - 1) h)
        ∙ last_byte a (length a - 1) h (omega arith)

    longer : length (a ++ zeros (s / 8 - length a)) - length a ≡ s / 8 - length a
    longer = rw (length-append, length-replicate) (omega arith)

    kept : value a % 256 ^ (s / 8) ≡ value a
    kept = mod-eq_of_lt (omega (arith, value-lt a h, pow-le-pow_right {n = 256} (omega arith) fits))

object_bytes-zero : (n : ℕ) → object_bytes n 0 ≡ zeros n
object_bytes-zero zero = refl
object_bytes-zero (suc n) = ap (λ t. 0 ∷ t) (object_bytes-zero n)

-- A conversion to an integer of `w` bytes gives the value up to the width.
to_uint-value : (w : ℕ) (a : Immediate) → All IsByte a → to_uint w a ≡ value a % 256 ^ w
unfolding to_uint
to_uint-value w a h = elim (Bool-cases (leb w (length a))) [
  | inl short ↦
      let e : min (length a) w ≡ w = ground arith in
      rw
        (
          e,
          object_bytes-zero,
          drop_all (zeros w) w (omega (arith, length-replicate {A = ℕ} w 0)),
          append-nil,
        )
        (value-take w a h)
  | inr long ↦
      let e : min (length a) w ≡ length a = ground arith in
      rw
        (
          e,
          object_bytes-zero,
          drop-replicate,
          take_all a (length a) (omega arith),
          value-append_zeros a (w - length a),
        )
        (sym (mod-eq_of_lt (below (ground arith))))
]
  where
    below : length a ≤ w → value a < 256 ^ w
    below l = omega (arith, value-lt a h, pow-le-pow_right {n = 256} (omega arith) l)

-- The loop of `operator bool` from index `i` on, over all that is left.
any_set-value :
    (rounds i : ℕ) (a : Immediate)
    → i + rounds ≡ length a
    → length a < 2 ^ 16
    → any_set rounds i a ≡ ok (not (value (drop i a) == 0))
unfolding any_set
any_set-value zero i a e small =
    let ended : ltb i (length a) ≡ false = ground arith in
    rw (ended, drop_all a i (omega arith)) refl
any_set-value (suc rounds) i a e small =
    let inside : ltb i (length a) ≡ true = ground arith in
    let next : u16 (i + 1) ≡ suc i = omega arith in
    rw (inside, next, any_set-value rounds (suc i) a (omega (arith, e)) small, value-drop-suc i a)
      (digit (get_or a i 0) (value (drop (suc i) a)))
  where
    digit :
        (x v : ℕ)
        → (if not (x == 0) then ok true else ok (not (v == 0))) ≡ ok (not (x + 256 * v == 0))
    digit x v = ground arith

-- For an immediate of fewer than 65536 bytes, the conversion to `bool` ends without a fault and
-- tells whether the value is not zero.
pub to_bool-value : (a : Immediate) → length a < 2 ^ 16 → to_bool a ≡ ok (not (value a == 0))
unfolding to_bool
to_bool-value a small =
    let rounds : all_rounds a ≡ length a = omega arith in
    rw rounds (any_set-value (length a) 0 a (omega arith) small)

-- An immediate made of a 64-bit number converts back to the number, cut to the immediate's size.
pub to_uint64-from_value : (s v : ℕ) → v < 2 ^ 64 → to_uint64 (from_value s v) ≡ v % 256 ^ (s / 8)
to_uint64-from_value s v h =
    let b = from_value_lem s v h in
    to_uint-value 8 (from_value s v) b.bytes
    ∙ ap (λ t. t % 256 ^ 8) b.valued
    ∙ mod-eq_of_lt {n = v % 256 ^ (s / 8)} (omega (arith, mod-le v (256 ^ (s / 8))))
