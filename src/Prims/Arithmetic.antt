-- ===== src/Prims/Arithmetic.antt =====
-- src/prims.c: sums, differences and comparisons of fixnums, and the contagion of flonums.
use minim.Base.{
  ℕ, ◌+◌, ◌-◌, ◌%◌, ◌^◌, ◌<◌, ◌≡◌, refl, ap, ◌∙◌, Bool, true, false, ◌⊎◌, inl, inr, List, [], ◌∷◌,
  arith, Bool-cases, ltb,
}
use minim.Object.{Mobj, fixnum, mnull, mfixnum, sign_extend, mnullp}
use minim.Runtime.{Runtime, ok}
use minim.Runtime.Laws.{IsFresh}
use minim.Runtime.Bind.{mcar-at, mcdr-at}
use minim.Alloc.{mflonum}
use minim.Eval.Env.ProperList.{Chain, cell}
use minim.Eval.Apply.{mfixnum_val}
use minim.Prims.{Doubles, negated, to_double}
use minim.Prims.Numbers.{prim_add, prim_sub, subtract}
use minim.Prims.Walk.{Values, nil, cons, folded, has_flonum, walk-Values, any_flonum-Chain}

abbrev pub fixnums : List ℕ → List Mobj
fixnums [] = []
fixnums (n ∷ ns) = fixnum n ∷ fixnums ns

abbrev pub signed : List ℕ → List ℕ
signed [] = []
signed (n ∷ ns) = sign_extend n ∷ signed ns

abbrev pub sum : List ℕ → ℕ
sum [] = 0
sum (n ∷ ns) = n + sum ns

-- The 61 bits of a fixnum.
abbrev pub AllFixnum : List ℕ → Type 0
AllFixnum [] = Unit {0}
AllFixnum (n ∷ ns) = (n < 2 ^ 61) × AllFixnum ns

-- The order of the integers that the bits stand for.
abbrev pub below : ℕ → ℕ → Bool
below a b = ltb ((a + 2 ^ 60) % 2 ^ 61) ((b + 2 ^ 60) % 2 ^ 61)

pub has_flonum-fixnums : (ns : List ℕ) → has_flonum (fixnums ns) ≡ false
has_flonum-fixnums [] = refl
has_flonum-fixnums (n ∷ ns) = has_flonum-fixnums ns

pub Values-fixnums : (r : Runtime) (ns : List ℕ) → Values r mfixnum_val (fixnums ns) (signed ns)
unfolding mfixnum_val
Values-fixnums r [] = nil
Values-fixnums r (n ∷ ns) = cons refl (Values-fixnums r ns)

pub sign_extend_bits :
    (n : ℕ) → n < 2 ^ 61 → (sign_extend n ≡ n) ⊎ (sign_extend n ≡ n + (2 ^ 64 - 2 ^ 61))
unfolding sign_extend
sign_extend_bits n h = elim (Bool-cases (ltb n (2 ^ 60))) [
  | inl small ↦ inl (rw (small) refl)
  | inr large ↦ inr (rw (large) refl)
]

sum-signed :
    (ns : List ℕ) (s : ℕ)
    → AllFixnum ns
    → folded (λ s n. (s + n) % 2 ^ 64) s (signed ns) % 2 ^ 61 ≡ (s + sum ns) % 2 ^ 61
sum-signed [] s h = omega arith
sum-signed (n ∷ ns) s (h, hs) =
    let ih = sum-signed ns ((s + sign_extend n) % 2 ^ 64) hs in
    elim (sign_extend_bits n h) [
      | inl same ↦ ih ∙ omega (arith, same)
      | inr more ↦ ih ∙ omega (arith, more)
    ]

difference-signed :
    (ns : List ℕ) (s : ℕ)
    → AllFixnum ns
    → (folded (λ s n. (s + negated n) % 2 ^ 64) s (signed ns) + sum ns) % 2 ^ 61 ≡ s % 2 ^ 61
unfolding negated
difference-signed [] s h = omega arith
difference-signed (n ∷ ns) s (h, hs) =
    let ih = difference-signed ns ((s + (2 ^ 64 - sign_extend n) % 2 ^ 64) % 2 ^ 64) hs in
    elim (sign_extend_bits n h) [
      | inl same ↦ omega (arith, ih, same)
      | inr more ↦ omega (arith, ih, more)
    ]

-- On a chain of fixnums in a heap whose objects lie below the allocation pointer, `+` gives the sum of
-- the integers modulo 2^61, and changes nothing.
pub prim_add-fixnums :
    {r : Runtime} {args e : Mobj} (fl : Doubles) (ns : List ℕ)
    → IsFresh r
    → Chain r args (fixnums ns) e
    → AllFixnum ns
    → prim_add fl args r ≡ ok (fixnum (sum ns % 2 ^ 61)) r
unfolding prim_add mfixnum
prim_add-fixnums {r} fl ns fresh c h =
    let zero_sum : 0 + sum ns ≡ sum ns = omega arith in
    rw
      (
        any_flonum-Chain fresh c,
        has_flonum-fixnums ns,
        walk-Values mfixnum_val (λ s n. (s + n) % 2 ^ 64) 0 fresh c (Values-fixnums r ns),
      )
      (ap (λ x. ok (fixnum x) r) (sum-signed ns 0 h ∙ ap (λ x. x % 2 ^ 61) zero_sum))

tail_pair :
    {r : Runtime} {v e : Mobj} {x : Mobj} {xs : List Mobj} → Chain r v (x ∷ xs) e → mnullp v ≡ false
tail_pair (cell hp c) = refl

-- On a chain of two or more fixnums in a heap whose objects lie below the allocation pointer, `-` gives
-- a fixnum that is the first number again, modulo 2^61, when the others are added to it, and changes
-- nothing.
pub prim_sub-fixnums :
    {r : Runtime} {args : Mobj} (fl : Doubles) (first n : ℕ) (ns : List ℕ)
    → IsFresh r
    → Chain r args (fixnums (first ∷ n ∷ ns)) mnull
    → AllFixnum (first ∷ n ∷ ns)
    → (d : ℕ) × (prim_sub fl args r ≡ ok (fixnum d) r)
      × (d < 2 ^ 61)
      × ((d + sum (n ∷ ns)) % 2 ^ 61 ≡ first)
unfolding prim_sub subtract mfixnum mfixnum_val
prim_sub-fixnums {r} fl first n ns fresh (cell {p = p} hp c) (h, hs) =
    let s = folded (λ s n. (s + negated n) % 2 ^ 64) (sign_extend first) (signed (n ∷ ns)) in
    let back = difference-signed (n ∷ ns) (sign_extend first) hs in
    let same : sign_extend first % 2 ^ 61 ≡ first = elim (sign_extend_bits first h) [
      | inl low ↦ omega (arith, low)
      | inr high ↦ omega (arith, high)
    ] in
    (
      s % 2 ^ 61,
      rw
          (
            mcar-at r p hp,
            mcdr-at r p hp,
            tail_pair c,
            any_flonum-Chain fresh c,
            has_flonum-fixnums ns,
            walk-Values mfixnum_val (λ s n. (s + negated n) % 2 ^ 64) (sign_extend first) fresh c
                (Values-fixnums r (n ∷ ns)),
          )
          refl,
      omega arith,
      omega (arith, back, same),
    )

-- Where one of the arguments is a flonum, `+` gives a new flonum, the sum from the left in doubles.
pub prim_add-flonums :
    {r : Runtime} {args e : Mobj} {xs : List Mobj} {ds : List ℕ} (fl : Doubles)
    → IsFresh r
    → Chain r args xs e
    → has_flonum xs ≡ true
    → Values r (to_double fl) xs ds
    → prim_add fl args r ≡ mflonum (folded fl.add (fl.of_int 0) ds) r
unfolding prim_add
prim_add-flonums {r} fl fresh c some_flonum k =
    rw
      (
        any_flonum-Chain fresh c,
        some_flonum,
        walk-Values (to_double fl) fl.add (fl.of_int 0) fresh c k,
      )
      refl
