-- ===== src/Prims/Division.antt =====
-- src/prims.c: `quotient` and `remainder` of fixnums.
use native.Mathlib.Nat.{div-add-mod, mod-lt, mod-le, div-le_self}
use minim.Base.{
  ℕ, ◌+◌, ◌-◌, ◌*◌, ◌/◌, ◌%◌, ◌^◌, ◌≤◌, ◌<◌, ◌≡◌, ◌≢◌, refl, sym, ap, ◌∙◌, Bool, true, false, not,
  ◌⊎◌, inl, inr, [], ◌∷◌, arith, if◌then◌else◌, ltb, ◌==◌,
}
use minim.Object.{Mobj, fixnum, mfixnum, mnull, sign_extend}
use minim.Runtime.{Runtime, ok}
use minim.Runtime.Bind.{mcar-at, mcdr-at}
use minim.Eval.Env.ProperList.{Chain, cell, stop}
use minim.Eval.Apply.{mfixnum_val}
use minim.Prims.{second, signed_lt, negated}
use minim.Prims.Numbers.{
  is_negative, magnitude, with_sign, differ, truncated_quotient, truncated_remainder, prim_quotient,
  prim_remainder,
}
use minim.Prims.Arithmetic.{fixnums}

-- The sign and the size of the integer that the 61 bits stand for.
abbrev pub is_minus : ℕ → Bool
is_minus n = not (ltb n (2 ^ 60))

abbrev pub size_of : ℕ → ℕ
size_of n = if ltb n (2 ^ 60) then n else 2 ^ 61 - n

is_negative-sign_extend : (n : ℕ) → n < 2 ^ 61 → is_negative (sign_extend n) ≡ is_minus n
unfolding signed_lt sign_extend
is_negative-sign_extend n h = ground arith

magnitude-sign_extend : (n : ℕ) → n < 2 ^ 61 → magnitude (sign_extend n) ≡ size_of n
unfolding signed_lt sign_extend negated
magnitude-sign_extend n h = ground arith

-- The bits of a size with a sign stand for that size, and for that sign unless they are 0 or the size is
-- 2^60, which only the minus sign can have.
signed_bits :
    (minus : Bool) (x : ℕ)
    → x ≤ 2 ^ 60
    → (size_of (with_sign minus x % 2 ^ 61) ≡ x)
      × ((x ≡ 0)
          ⊎ (is_minus (with_sign minus x % 2 ^ 61) ≡ minus)
          ⊎ ((minus ≡ false) × (x ≡ 2 ^ 60)))
unfolding negated
signed_bits true x h = (ground arith, ground arith)
signed_bits false x h = (ground arith, ground arith)

size_of_bound : (n : ℕ) → n < 2 ^ 61 → size_of n ≤ 2 ^ 60
size_of_bound n h = ground arith

size_of_zero : (n : ℕ) → n < 2 ^ 61 → n ≢ 0 → 0 < size_of n
size_of_zero n h k = ground arith

-- How the quotient `q` and the remainder `m` of `a` by `b` stand to them: the sizes divide with remainder,
-- the remainder has the sign of `a`, and the quotient is negative when the signs differ. The one quotient
-- that is no fixnum, of -2^60 by -1, wraps.
abbrev pub Divides : ℕ → ℕ → ℕ → ℕ → Type 0
Divides a b q m =
    (size_of b * size_of q + size_of m ≡ size_of a)
    × (size_of m < size_of b)
    × ((size_of m ≡ 0) ⊎ (is_minus m ≡ is_minus a))
    × ((size_of q ≡ 0)
        ⊎ (is_minus q ≡ differ (is_minus a) (is_minus b))
        ⊎ ((a ≡ 2 ^ 60) × (b ≡ 2 ^ 61 - 1)))

quotient_lem :
    (a b : ℕ)
    → a < 2 ^ 61
    → b < 2 ^ 61
    → truncated_quotient (sign_extend a) (sign_extend b)
      ≡ with_sign (differ (is_minus a) (is_minus b)) (size_of a / size_of b)
unfolding truncated_quotient
quotient_lem a b ha hb =
    rw
      (
        magnitude-sign_extend a ha,
        magnitude-sign_extend b hb,
        is_negative-sign_extend a ha,
        is_negative-sign_extend b hb,
      )
      refl

remainder_lem :
    (a b : ℕ)
    → a < 2 ^ 61
    → b < 2 ^ 61
    → truncated_remainder (sign_extend a) (sign_extend b)
      ≡ with_sign (is_minus a) (size_of a % size_of b)
unfolding truncated_remainder
remainder_lem a b ha hb =
    rw (magnitude-sign_extend a ha, magnitude-sign_extend b hb, is_negative-sign_extend a ha) refl

sign_extend-nonzero : (b : ℕ) → b < 2 ^ 61 → b ≢ 0 → (sign_extend b == 0) ≡ false
unfolding sign_extend
sign_extend-nonzero b h k = ground arith

-- The size of a quotient is 2^60 and its sign plus for one division only.
wraps_only :
    (a b : ℕ)
    → a < 2 ^ 61
    → b < 2 ^ 61
    → 0 < size_of b
    → differ (is_minus a) (is_minus b) ≡ false
    → size_of a / size_of b ≡ 2 ^ 60
    → (a ≡ 2 ^ 60) × (b ≡ 2 ^ 61 - 1)
wraps_only a b ha hb pos plus full =
    let whole : size_of b * 2 ^ 60 + size_of a % size_of b ≡ size_of a =
      ap (λ q. size_of b * q + size_of a % size_of b) (sym full)
      ∙ div-add-mod (size_of a) (size_of b) in
    let one : size_of b ≡ 1 = omega (arith, size_of_bound a ha) in
    let most : size_of a ≡ 2 ^ 60 = omega (arith, size_of_bound a ha) in
    (ground arith, ground arith)

-- On two fixnums, the second not zero, `quotient` and `remainder` truncate towards zero: the size of the
-- first is the size of the second times that of the quotient plus that of the remainder, which is
-- smaller than the second's; the remainder has the sign of the first; the quotient is negative when the
-- signs differ, but that of -2^60 by -1 wraps. Nothing changes.
pub division-fixnums :
    {r : Runtime} {args : Mobj} (a b : ℕ)
    → Chain r args (fixnums (a ∷ b ∷ [])) mnull
    → a < 2 ^ 61
    → b < 2 ^ 61
    → b ≢ 0
    → (q : ℕ) × (m : ℕ) × (prim_quotient args r ≡ ok (fixnum q) r)
      × (prim_remainder args r ≡ ok (fixnum m) r)
      × Divides a b q m
unfolding prim_quotient prim_remainder second mfixnum mfixnum_val
division-fixnums {r} a b (cell {p = p} hp (cell {p = p'} hq (stop h))) ha hb nonzero_b =
    let pos = size_of_zero b hb nonzero_b in
    let large = size_of_bound a ha in
    let q_size = div-le_self (size_of a) (size_of b) in
    let m_size = mod-le (size_of a) (size_of b) in
    let (q_bits, q_sign) =
      signed_bits (differ (is_minus a) (is_minus b)) (size_of a / size_of b) (omega arith) in
    let (m_bits, m_sign) = signed_bits (is_minus a) (size_of a % size_of b) (omega arith) in
    let not_zero = sign_extend-nonzero b hb nonzero_b in
    (
      with_sign (differ (is_minus a) (is_minus b)) (size_of a / size_of b) % 2 ^ 61,
      with_sign (is_minus a) (size_of a % size_of b) % 2 ^ 61,
      rw (mcar-at r p hp, mcdr-at r p hp, mcar-at r p' hq, not_zero, quotient_lem a b ha hb) refl,
      rw (mcar-at r p hp, mcdr-at r p hp, mcar-at r p' hq, not_zero, remainder_lem a b ha hb) refl,
      rw (q_bits, m_bits)
          (
            div-add-mod (size_of a) (size_of b),
            mod-lt (size_of a) pos,
            elim m_sign [
              | inl no_rest ↦ inl no_rest
              | inr (inl sign) ↦ inr sign
              | inr (inr (plus, full)) ↦
                  absurd (omega (arith, mod-lt (size_of a) pos, size_of_bound b hb))
            ],
            elim q_sign [
              | inl no_times ↦ inl no_times
              | inr (inl sign) ↦ inr (inl sign)
              | inr (inr (plus, full)) ↦ inr (inr (wraps_only a b ha hb pos plus full))
            ],
          ),
    )
