-- ===== src/Immediate/Arith/Add/Loops.antt =====
-- The loops of `+` and `-`: they end when the index has room in a byte, with these results.
use native.Mathlib.Nat.{pow-suc}
use mathlib.Core.List.{append_assoc, append-nil}
use reil.Base.{
  ℕ, zero, suc, ◌+◌, ◌-◌, ◌*◌, ◌/◌, ◌%◌, ◌^◌, ◌≤◌, ◌<◌, ◌≡◌, ap, sym, ◌∙◌, List, ◌++◌, ltb, inl,
  inr, Bool-cases, ltb→lt, take_all, u8, u16, length, get_or, set, take, drop, replicate, All, ok,
  arith, length-set,
}
use reil.Immediate.{Immediate, IsByte, value}
use reil.Immediate.Write.{drop-suc-set, All-set, value-take-set, take-suc-set, drop-suc}
use reil.Immediate.Value.{All-get_or, value-take-suc}
use reil.Immediate.Arith.Add.{add_low, sub_low, asr8, fill}

-- `fill` overwrites everything from its index on.
pub fill_lem :
    (fuel i v : ℕ) (a : Immediate)
    → length a < 256
    → i ≤ length a
    → length a < i + fuel
    → fill fuel i v a ≡ ok (take i a ++ replicate (length a - i) v)
unfolding fill
fill_lem zero i v a small low enough = absurd (omega arith)
fill_lem (suc fuel) i v a small low enough = elim (Bool-cases (ltb i (length a))) [
  | inl more ↦
      let inside : i < length a = ltb→lt i (length a) more in
      let next : (i + 1) % 2 ^ 8 ≡ suc i = omega arith in
      rw
        (
          more,
          next,
          fill_lem fuel (suc i) v (set a i v) (rw length-set small) (rw length-set inside)
              (rw length-set (omega arith)),
        )
        (let e : length a - i ≡ suc (length a - suc i) = omega arith in
          rw (length-set, take-suc-set a i v inside, append_assoc, e))
  | inr done ↦
      let e : length a - i ≡ 0 = ground arith in
      rw (done, e, append-nil, take_all a i (ground arith))
]

-- The state of a loop at index `i`: the bytes below `i` of the result are written, and those from
-- `i` on are still as they were in `start`.
pub record Partial (start : List ℕ) (i : ℕ) (result : List ℕ) : Type 0 where
  pub same_length : length result ≡ length start
  pub bytes : All IsByte result
  pub rest : drop i result ≡ drop i start

Partial-set :
    (start result : List ℕ) (i v : ℕ)
    → Partial start i result
    → IsByte v
    → Partial start (suc i) (set result i v)
Partial-set start result i v p hv = record {
  same_length = length-set result i v ∙ p.same_length;
  bytes = All-set result i v p.bytes hv;
  rest = drop-suc-set result i v ∙ drop-suc i result ∙ ap (drop 1) p.rest ∙ sym (drop-suc i start);
}

module _ (lhs rhs start : Immediate) (hl : All IsByte lhs) (hr : All IsByte rhs)
    (small : length lhs < 256) (room : length lhs ≤ length start) where
  -- The bytes written and the carry are the sum of the operands' bytes below the index.
  abbrev pub Sum : ℕ → ℕ → List ℕ → Type 0
  Sum i carry result =
      (carry ≤ 1)
      × Partial start i result
      × (value (take i result) + 256 ^ i * carry ≡ value (take i lhs) + value (take i rhs))

  Sum-step :
      (i carry : ℕ) (result : List ℕ)
      → i < length lhs
      → Sum i carry result
      → let s = u16 (carry + get_or lhs i 0 + get_or rhs i 0) in
        Sum (suc i) (s / 2 ^ 8) (set result i (u8 s))
  Sum-step i carry result inside (c, p, e) = (
    omega (arith, All-get_or lhs i hl, All-get_or rhs i hr),
    Partial-set start result i _ p (omega arith),
    omega (
      arith,
      value-take-set result i v (omega (arith, p.same_length)),
      value-take-suc i lhs,
      value-take-suc i rhs,
      ap (λ (t : ℕ). t * c') (pow-suc 256 i),
      ap (λ (t : ℕ). 256 ^ i * t) digits,
      e,
    ),
  )
    where
      v : ℕ
      v = u8 (u16 (carry + get_or lhs i 0 + get_or rhs i 0))

      c' : ℕ
      c' = u16 (carry + get_or lhs i 0 + get_or rhs i 0) / 2 ^ 8

      digits : carry + get_or lhs i 0 + get_or rhs i 0 ≡ v + 256 * c'
      digits = omega (arith, All-get_or lhs i hl, All-get_or rhs i hr)

  pub add_low-Sum :
      (fuel i carry : ℕ) (result : List ℕ)
      → i ≤ length lhs
      → length lhs < i + fuel
      → Sum i carry result
      → (c : ℕ) × (out : List ℕ) × (add_low fuel i carry result lhs rhs ≡ ok (length lhs, c, out))
        × Sum (length lhs) c out
  unfolding add_low
  add_low-Sum zero i carry result low enough inv = absurd (omega arith)
  add_low-Sum (suc fuel) i carry result low enough inv = elim (Bool-cases (ltb i (length lhs))) [
    | inl more ↦
        let inside : i < length lhs = ltb→lt i (length lhs) more in
        let next : (i + 1) % 2 ^ 8 ≡ suc i = omega arith in
        rw (more, next)
          (add_low-Sum fuel (suc i) _ _ inside (omega arith) (Sum-step i carry result inside inv))
    | inr done ↦ let e : i ≡ length lhs = ground arith in (carry, result, rw (done, e), rw e at inv)
  ]

  -- The bytes written and the borrow are the difference of the operands' bytes below the index;
  -- `tmp` is the 16-bit pattern of 0 or of -1.
  abbrev pub Difference : ℕ → ℕ → ℕ → List ℕ → Type 0
  Difference i borrow tmp result =
      (borrow ≤ 1)
      × (tmp ≡ 0xffff * borrow)
      × Partial start i result
      × (value (take i result) + value (take i rhs) ≡ value (take i lhs) + 256 ^ i * borrow)

  diff_at : ℕ → ℕ → ℕ
  diff_at i tmp = u16 (tmp + get_or lhs i 0 + 2 ^ 16 - get_or rhs i 0)

  borrow_at : ℕ → ℕ → ℕ
  borrow_at i tmp = diff_at i tmp / 0x8000

  Difference-step :
      (i borrow tmp : ℕ) (result : List ℕ)
      → i < length lhs
      → Difference i borrow tmp result
      → Difference
          (suc i)
          (borrow_at i tmp)
          (asr8 (diff_at i tmp))
          (set result i (u8 (diff_at i tmp)))
  unfolding diff_at borrow_at asr8
  Difference-step i borrow tmp result inside (b, t, p, e) = (
    omega (arith, All-get_or lhs i hl, All-get_or rhs i hr),
    ground (arith, All-get_or lhs i hl, All-get_or rhs i hr),
    Partial-set start result i _ p (omega arith),
    omega (
      arith,
      value-take-set result i v (omega (arith, p.same_length)),
      value-take-suc i lhs,
      value-take-suc i rhs,
      ap (λ (t : ℕ). t * b') (pow-suc 256 i),
      ap (λ (t : ℕ). 256 ^ i * t) digits,
      e,
    ),
  )
    where
      v : ℕ
      v = u8 (u16 (tmp + get_or lhs i 0 + 2 ^ 16 - get_or rhs i 0))

      b' : ℕ
      b' = u16 (tmp + get_or lhs i 0 + 2 ^ 16 - get_or rhs i 0) / 0x8000

      digits : v + get_or rhs i 0 + borrow ≡ get_or lhs i 0 + 256 * b'
      digits = omega (arith, All-get_or lhs i hl, All-get_or rhs i hr)

  pub sub_low-Difference :
      (fuel i borrow tmp : ℕ) (result : List ℕ)
      → i ≤ length lhs
      → length lhs < i + fuel
      → Difference i borrow tmp result
      → (b : ℕ) × (t : ℕ) × (out : List ℕ) × (sub_low fuel i tmp result lhs rhs
          ≡ ok (length lhs, t, out))
        × Difference (length lhs) b t out
  unfolding sub_low diff_at
  sub_low-Difference zero i borrow tmp result low enough inv = absurd (omega arith)
  sub_low-Difference (suc fuel) i borrow tmp result low enough inv =
      elim (Bool-cases (ltb i (length lhs))) [
        | inl more ↦
            let inside : i < length lhs = ltb→lt i (length lhs) more in
            let next : (i + 1) % 2 ^ 8 ≡ suc i = omega arith in
            rw (more, next)
              (sub_low-Difference fuel (suc i) (borrow_at i tmp) _ _ inside (omega arith)
                (Difference-step i borrow tmp result inside inv))
        | inr done ↦
            let e : i ≡ length lhs = ground arith in
            (borrow, tmp, result, rw (done, e), rw e at inv)
      ]
