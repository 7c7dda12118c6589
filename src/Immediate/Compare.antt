-- ===== src/Immediate/Compare.antt =====
-- The comparison operators of `Immediate` compare the values.
use native.Mathlib.Nat.{mul-le-mul_left}
use reil.Base.{
  ℕ, zero, suc, ◌+◌, ◌-◌, ◌*◌, ◌^◌, ◌<◌, ◌≡◌, refl, sym, ap, ap₂, ◌∙◌, Bool, true, false, not, List,
  [], ◌∷◌, ltb, leb, ◌==◌, if◌then◌else◌, length, get_or, take, All, ok, u16, arith, take_all,
}
use reil.Immediate.{
  Immediate, IsByte, value, same_bytes, compare_down, compare_with, equal, less, less_equal,
  not_equal, greater, greater_equal,
}
use reil.Immediate.Value.{value-take-suc, value-take-lt}

same_bytes-value :
    (a b : List ℕ)
    → All IsByte a
    → All IsByte b
    → length a ≡ length b
    → same_bytes (length a) a b ≡ (value a == value b)
unfolding same_bytes
same_bytes-value [] [] ha hb l = refl
same_bytes-value [] (y ∷ b) ha hb l = absurd (omega arith)
same_bytes-value (x ∷ a) [] ha hb l = absurd (omega arith)
same_bytes-value (x ∷ a) (y ∷ b) ha hb l =
    rw (same_bytes-value a b ha.1 hb.1 (omega arith)) (ground arith)

-- Numbers with a higher leading digit are higher.
leading : (p x y lo hi : ℕ) → lo < p → x < y → lo + p * x < hi + p * y
leading p x y lo hi l h = omega (arith, mul-le-mul_left p h)

-- What the loop of `<` and `<=` returns for values `v` and `w`.
abbrev order : Bool → ℕ → ℕ → Bool
order tie v w = if ltb v w then true else if ltb w v then false else tie

module _ (tie : Bool) (a b : List ℕ) (ha : All IsByte a) (hb : All IsByte b)
    (small : length a < 0xffff) where
  -- The loop with the `n` lowest bytes left.
  compare_down-value :
      (rounds n i : ℕ)
      → n < rounds
      → i + n ≡ suc (length a)
      → 0 < i
      → compare_down tie rounds i (length a) a b
        ≡ ok (order tie (value (take n a)) (value (take n b)))
  unfolding compare_down
  compare_down-value zero n i more e pos = absurd (omega arith)
  compare_down-value (suc rounds) zero i more e pos =
      let ended : ltb (length a) i ≡ true = ground arith in rw ended refl
  compare_down-value (suc rounds) (suc n) i more e pos =
      let going : ltb (length a) i ≡ false = ground arith in
      let j : length a - i ≡ n = omega (arith, e) in
      let inside : leb (length a) n ≡ false = ground (arith, e) in
      let next : u16 (i + 1) ≡ suc i = omega (arith, e) in
      rw
        (
          going,
          j,
          inside,
          next,
          compare_down-value rounds n (suc i) (omega arith) (omega (arith, e)) (omega arith),
          value-take-suc n a,
          value-take-suc n b,
        )
        (digits (get_or a n 0) (get_or b n 0) (value (take n a)) (value (take n b)) (256 ^ n)
          (value-take-lt n a ha) (value-take-lt n b hb))
    where
      digits :
          (x y v w p : ℕ)
          → v < p
          → w < p
          → (if ltb x y then ok true else if ltb y x then ok false else ok (order tie v w))
            ≡ ok (order tie (v + p * x) (w + p * y))
      digits x y v w p hv hw = ground (arith, leading p x y v w hv, leading p y x w v hw)

  compare_with-value :
      length a ≡ length b → compare_with tie a b ≡ ok (order tie (value a) (value b))
  unfolding compare_with
  compare_with-value l =
      let same : (length a == length b) ≡ true = ground arith in
      let width : u16 (length a) ≡ length a = omega arith in
      rw (same, width)
        (compare_down-value (suc (suc (length a))) (length a) 1 (omega arith) (omega arith)
            (omega arith)
          ∙ ap₂ (λ s t. ok (order tie (value s) (value t))) (take_all a (length a) (omega arith))
              (take_all b (length a) (omega arith)))

module _ (a b : Immediate) (ha : All IsByte a) (hb : All IsByte b) (l : length a ≡ length b) where
  -- For immediates of one size, `==` and `!=` tell whether the values are equal.
  pub equal-value : equal a b ≡ ok (value a == value b)
  unfolding equal
  equal-value =
      let same : (length a == length b) ≡ true = ground arith in
      rw same (ap ok (same_bytes-value a b ha hb l))

  pub not_equal-value : not_equal a b ≡ ok (not (value a == value b))
  unfolding not_equal
  not_equal-value = rw equal-value

module _ (a b : Immediate) (ha : All IsByte a) (hb : All IsByte b) (l : length a ≡ length b)
    (small : length a < 0xffff) where
  pub less-value : less a b ≡ ok (ltb (value a) (value b))
  unfolding less
  less-value = rw (compare_with-value false a b ha hb small l) (ground arith)

  pub less_equal-value : less_equal a b ≡ ok (leb (value a) (value b))
  unfolding less_equal
  less_equal-value = rw (compare_with-value true a b ha hb small l) (ground arith)

-- The six comparison operators.
pub record Compares (a b : Immediate) : Type 0 where
  pub eq : equal a b ≡ ok (value a == value b)
  pub ne : not_equal a b ≡ ok (not (value a == value b))
  pub lt : less a b ≡ ok (ltb (value a) (value b))
  pub le : less_equal a b ≡ ok (leb (value a) (value b))
  pub gt : greater a b ≡ ok (ltb (value b) (value a))
  pub ge : greater_equal a b ≡ ok (leb (value b) (value a))

-- For immediates of one size, of fewer than 65535 bytes, the six comparison operators end without a
-- fault and compare the values.
pub comparisons_by_value :
    (a b : Immediate)
    → All IsByte a
    → All IsByte b
    → length a ≡ length b
    → length a < 0xffff
    → Compares a b
unfolding greater greater_equal
comparisons_by_value a b ha hb l small =
    let small_too : length b < 0xffff = omega arith in
    record {
      eq = equal-value a b ha hb l;
      ne = not_equal-value a b ha hb l;
      lt = less-value a b ha hb l small;
      le = less_equal-value a b ha hb l small;
      gt = less-value b a hb ha (sym l) small_too;
      ge = less_equal-value b a hb ha (sym l) small_too;
    }
