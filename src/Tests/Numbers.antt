-- ===== src/Tests/Numbers.antt =====
-- The theorems on the arithmetic primitives at the arguments 5 and -2, and at 5 and a flonum, which
-- `vector` is called on as well.
use minim.Base.{
  ◌≢◌, some, ℕ, ◌+◌, ◌-◌, ◌*◌, ◌%◌, ◌^◌, ◌<◌, ◌≡◌, refl, arith, [], ◌∷◌, ltb, leb, ◌==◌, not,
}
use minim.Object.{Addr, typed, slots, vector, Mobj, fixnum, flonum, mnull, pair, cons_cell, double}
use minim.Runtime.{Runtime, ok, write}
use minim.Runtime.Laws.{IsFresh}
use minim.Alloc.{mflonum}
use minim.Eval.Env.ProperList.{Chain, cell, stop}
use minim.Eval.Apply.{mfixnum_val}
use minim.Prims.{Doubles, mboolean, to_double}
use minim.Prims.Numbers.{
  prim_add, prim_sub, prim_num_eq, prim_lt, prim_gt, prim_le, prim_ge, prim_quotient,
  prim_remainder,
}
use minim.Prims.Walk.{Values, nil, cons, folded, adjacent}
use minim.Prims.Arithmetic.{
  fixnums, sum, below, prim_add-fixnums, prim_sub-fixnums, prim_add-flonums,
}
use minim.Prims.Compare.{comparisons-fixnums}
use minim.Prims.Lists.{prim_vector}
use minim.Prims.Vector.{prim_vector-Chain}
use minim.Prims.Division.{Divides, division-fixnums}
use minim.Tests.{blank}

abbrev whole : Doubles
whole = record {
  of_int = λ n. n;
  add = λ a b. a + b;
  sub = λ a b. a - b;
  mul = λ a b. a * b;
  neg = λ a. 0;
  eq = λ a b. a == b;
  less = λ a b. ltb a b;
  less_eq = λ a b. leb a b;
  signbit = λ a. ltb (2 ^ 63) a;
}

abbrev minus_two : ℕ
minus_two = 2305843009213693950

abbrev called : Runtime
called =
    let a = write blank 0 (cons_cell (fixnum minus_two) mnull) in
    let b = write a 16 (cons_cell (fixnum 5) (pair 0)) in
    let c = write b 32 (double 9) in
    let d = write c 48 (cons_cell (flonum 32) mnull) in
    let e = write d 64 (cons_cell (fixnum 5) (pair 48)) in record e { ap = 80 }

called-IsFresh : IsFresh called
called-IsFresh = record { unused = λ p h. ground arith }

numbers : Chain called (pair 16) (fixnums (5 ∷ minus_two ∷ [])) mnull
numbers = cell refl (cell refl (stop refl))

mixed : Chain called (pair 64) (fixnum 5 ∷ flonum 32 ∷ []) mnull
mixed = cell refl (cell refl (stop refl))

mixed-Values : Values called (to_double whole) (fixnum 5 ∷ flonum 32 ∷ []) (5 ∷ 9 ∷ [])
unfolding to_double mfixnum_val minim.Equal.mflonum_val minim.Object.sign_extend
mixed-Values = cons refl (cons refl nil)

prim_add-fixnums_example :
    prim_add whole (pair 16) called ≡ ok (fixnum (sum (5 ∷ minus_two ∷ []) % 2 ^ 61)) called
prim_add-fixnums_example =
    prim_add-fixnums whole (5 ∷ minus_two ∷ []) called-IsFresh numbers
      (omega arith, (omega arith, tt))

prim_sub-fixnums_example :
    (d : ℕ) × (prim_sub whole (pair 16) called ≡ ok (fixnum d) called)
    × (d < 2 ^ 61)
    × ((d + sum (minus_two ∷ [])) % 2 ^ 61 ≡ 5)
prim_sub-fixnums_example =
    prim_sub-fixnums whole 5 minus_two [] called-IsFresh numbers (omega arith, (omega arith, tt))

prim_add-flonums_example :
    prim_add whole (pair 64) called ≡ mflonum (folded (λ a b. a + b) 0 (5 ∷ 9 ∷ [])) called
prim_add-flonums_example = prim_add-flonums whole called-IsFresh mixed refl mixed-Values

comparisons-fixnums_example :
    (prim_num_eq whole (pair 16) called
      ≡ ok (mboolean (adjacent (λ a b. a == b) 5 (minus_two ∷ []))) called)
    × (prim_lt whole (pair 16) called ≡ ok (mboolean (adjacent below 5 (minus_two ∷ []))) called)
    × (prim_gt whole (pair 16) called
        ≡ ok (mboolean (adjacent (λ a b. below b a) 5 (minus_two ∷ []))) called)
    × (prim_le whole (pair 16) called
        ≡ ok (mboolean (adjacent (λ a b. not (below b a)) 5 (minus_two ∷ []))) called)
    × (prim_ge whole (pair 16) called
        ≡ ok (mboolean (adjacent (λ a b. not (below a b)) 5 (minus_two ∷ []))) called)
comparisons-fixnums_example =
    comparisons-fixnums whole 5 (minus_two ∷ []) called-IsFresh numbers
      (omega arith, (omega arith, tt))

division-fixnums_example :
    (q : ℕ) × (m : ℕ) × (prim_quotient (pair 16) called ≡ ok (fixnum q) called)
    × (prim_remainder (pair 16) called ≡ ok (fixnum m) called)
    × Divides 5 minus_two q m
division-fixnums_example =
    division-fixnums 5 minus_two numbers (omega arith) (omega arith) (λ e. absurd (omega arith))

prim_vector-Chain_example :
    (s : Runtime) × (prim_vector (pair 64) called ≡ ok (typed 80) s)
    × (s.heap 80 ≡ some (slots vector (fixnum 5 ∷ flonum 32 ∷ [])))
    × ((p : Addr) → p ≢ 80 → s.heap p ≡ called.heap p)
prim_vector-Chain_example = prim_vector-Chain called-IsFresh mixed
