-- ===== src/Prims/Compare.antt =====
-- src/prims.c: the comparisons of fixnums.
use minim.Base.{ℕ, ◌^◌, ◌<◌, ◌≡◌, refl, ap, Bool, not, List, [], ◌∷◌, arith, ◌==◌}
use minim.Object.{Mobj, sign_extend}
use minim.Runtime.{Runtime, ok}
use minim.Runtime.Laws.{IsFresh}
use minim.Eval.Env.ProperList.{Chain}
use minim.Eval.Apply.{mfixnum_val}
use minim.Prims.{Doubles, mboolean, signed_lt}
use minim.Prims.Numbers.{
  cmp_pairwise, prim_num_eq, prim_lt, prim_gt, prim_le, prim_ge, ci_eq, ci_lt, ci_gt, ci_le, ci_ge,
}
use minim.Prims.Walk.{adjacent, any_flonum-Chain, pairwise-Values}
use minim.Prims.Arithmetic.{fixnums, signed, AllFixnum, below, has_flonum-fixnums, Values-fixnums}

signed_lt-sign_extend :
    (a b : ℕ) → a < 2 ^ 61 → b < 2 ^ 61 → signed_lt (sign_extend a) (sign_extend b) ≡ below a b
unfolding signed_lt sign_extend
signed_lt-sign_extend a b ha hb = ground arith

sign_extend-eq : (a b : ℕ) → a < 2 ^ 61 → b < 2 ^ 61 → (sign_extend a == sign_extend b) ≡ (a == b)
unfolding sign_extend
sign_extend-eq a b ha hb = ground arith

adjacent-signed :
    (c d : ℕ → ℕ → Bool)
    → ((a b : ℕ) → a < 2 ^ 61 → b < 2 ^ 61 → c (sign_extend a) (sign_extend b) ≡ d a b)
    → (n : ℕ) (ns : List ℕ) → AllFixnum (n ∷ ns)
    → adjacent c (sign_extend n) (signed ns) ≡ adjacent d n ns
adjacent-signed c d same n [] h = refl
adjacent-signed c d same n (m ∷ ns) (h, (h', hs)) =
    rw (same n m h h', adjacent-signed c d same m ns (h', hs)) refl

cmp_pairwise-fixnums :
    {r : Runtime} {args e : Mobj} (fl : Doubles) (ci cf d : ℕ → ℕ → Bool) (n : ℕ) (ns : List ℕ)
    → ((a b : ℕ) → a < 2 ^ 61 → b < 2 ^ 61 → ci (sign_extend a) (sign_extend b) ≡ d a b)
    → IsFresh r
    → Chain r args (fixnums (n ∷ ns)) e
    → AllFixnum (n ∷ ns)
    → cmp_pairwise fl args ci cf r ≡ ok (mboolean (adjacent d n ns)) r
unfolding cmp_pairwise
cmp_pairwise-fixnums {r} fl ci cf d n ns same fresh c h =
    rw
      (
        any_flonum-Chain fresh c,
        has_flonum-fixnums ns,
        pairwise-Values ci mfixnum_val fresh c (Values-fixnums r (n ∷ ns)),
        adjacent-signed ci d same n ns h,
      )
      refl

-- On a chain of one or more fixnums in a heap whose objects lie below the allocation pointer, `=`, `<`,
-- `>`, `<=` and `>=` answer whether each number and the next one are so related as integers, and change
-- nothing.
pub comparisons-fixnums :
    {r : Runtime} {args e : Mobj} (fl : Doubles) (n : ℕ) (ns : List ℕ)
    → IsFresh r
    → Chain r args (fixnums (n ∷ ns)) e
    → AllFixnum (n ∷ ns)
    → (prim_num_eq fl args r ≡ ok (mboolean (adjacent (λ a b. a == b) n ns)) r)
      × (prim_lt fl args r ≡ ok (mboolean (adjacent below n ns)) r)
      × (prim_gt fl args r ≡ ok (mboolean (adjacent (λ a b. below b a) n ns)) r)
      × (prim_le fl args r ≡ ok (mboolean (adjacent (λ a b. not (below b a)) n ns)) r)
      × (prim_ge fl args r ≡ ok (mboolean (adjacent (λ a b. not (below a b)) n ns)) r)
unfolding prim_num_eq prim_lt prim_gt prim_le prim_ge
comparisons-fixnums fl n ns fresh c h = (
  cmp_pairwise-fixnums fl ci_eq fl.eq (λ a b. a == b) n ns sign_extend-eq fresh c h,
  cmp_pairwise-fixnums fl ci_lt fl.less below n ns signed_lt-sign_extend fresh c h,
  cmp_pairwise-fixnums fl ci_gt (λ a b. fl.less b a) (λ a b. below b a) n ns
      (λ a b ha hb. signed_lt-sign_extend b a hb ha) fresh c h,
  cmp_pairwise-fixnums fl ci_le fl.less_eq (λ a b. not (below b a)) n ns
      (λ a b ha hb. ap not (signed_lt-sign_extend b a hb ha)) fresh c h,
  cmp_pairwise-fixnums fl ci_ge (λ a b. fl.less_eq b a) (λ a b. not (below a b)) n ns
      (λ a b ha hb. ap not (signed_lt-sign_extend a b ha hb)) fresh c h,
)
