-- ===== src/Prims/Walk.antt =====
-- src/prims.c: the loops along the arguments, on a chain of pairs.
use minim.Base.{
  ℕ, zero, suc, ◌<◌, ◌≡◌, refl, Bool, true, false, ◌||◌, ◌&&◌, inl, inr, List, [], ◌∷◌, arith,
  length, Bool-cases,
}
use minim.Object.{Mobj, mflonump}
use minim.Runtime.{Runtime, Cmd, ok, pure, ◌>>=◌}
use minim.Runtime.Laws.{IsFresh}
use minim.Runtime.Bind.{mcar-at, mcdr-at}
use minim.Eval.Env.ProperList.{Chain, cell, stop, length-Chain}
use minim.Prims.{mboolean, for_each, walk, any_flonum_loop, any_flonum}
use minim.Prims.Numbers.{pairwise_loop, pairwise}

-- `value` reads these numbers from the arguments, in their order.
pub data Values (r : Runtime) (value : Mobj → Cmd ℕ) : List Mobj → List ℕ → Type 0 where
  nil : Values r value [] []
  cons :
      {x : Mobj} {n : ℕ} {xs : List Mobj} {ns : List ℕ}
      → value x r ≡ ok n r
      → Values r value xs ns
      → Values r value (x ∷ xs) (n ∷ ns)

abbrev pub folded : (ℕ → ℕ → ℕ) → ℕ → List ℕ → ℕ
folded op s [] = s
folded op s (n ∷ ns) = folded op (op s n) ns

abbrev pub has_flonum : List Mobj → Bool
has_flonum [] = false
has_flonum (x ∷ xs) = mflonump x || has_flonum xs

-- Each number and the next one pass.
abbrev pub adjacent : (ℕ → ℕ → Bool) → ℕ → List ℕ → Bool
adjacent c n [] = true
adjacent c n (m ∷ ns) = c n m && adjacent c m ns

for_each-Values :
    {r : Runtime} {v e : Mobj} {xs : List Mobj} {ns : List ℕ} (value : Mobj → Cmd ℕ)
    (op : ℕ → ℕ → ℕ) (fuel s : ℕ)
    → Chain r v xs e
    → Values r value xs ns
    → length xs < fuel
    → for_each (λ (s : ℕ) (a : Mobj). value a >>= λ n. pure (op s n)) fuel s v r
      ≡ ok (folded op s ns) r
unfolding for_each
for_each-Values value op zero s c k lt = absurd (omega arith)
for_each-Values value op (suc fuel) s (stop h) nil lt = rw (h) refl
for_each-Values {r} value op (suc fuel) s (cell {p = p} hp c) (cons {n = n} read ks) lt =
    let ih = for_each-Values value op fuel (op s n) c ks (omega arith) in
    rw (mcar-at r p hp, read, mcdr-at r p hp, ih) refl

-- A fold of the arguments ends, and changes nothing.
pub walk-Values :
    {r : Runtime} {v e : Mobj} {xs : List Mobj} {ns : List ℕ} (value : Mobj → Cmd ℕ)
    (op : ℕ → ℕ → ℕ) (s : ℕ)
    → IsFresh r
    → Chain r v xs e
    → Values r value xs ns
    → walk (λ (s : ℕ) (a : Mobj). value a >>= λ n. pure (op s n)) s v r ≡ ok (folded op s ns) r
unfolding walk
walk-Values {r} value op s fresh c k =
    for_each-Values value op (suc r.ap) s c k (omega (arith, length-Chain fresh c))

any_flonum_loop-Chain :
    {r : Runtime} {v e : Mobj} {xs : List Mobj} (fuel : ℕ)
    → Chain r v xs e
    → length xs < fuel
    → any_flonum_loop fuel v r ≡ ok (has_flonum xs) r
unfolding any_flonum_loop
any_flonum_loop-Chain zero c lt = absurd (omega arith)
any_flonum_loop-Chain (suc fuel) (stop h) lt = rw (h) refl
any_flonum_loop-Chain {r} (suc fuel) (cell {p = p} {a = a} hp c) lt =
    let ih = any_flonum_loop-Chain fuel c (omega arith) in
    elim (Bool-cases (mflonump a)) [
      | inl flo ↦ rw (mcar-at r p hp, flo) refl
      | inr fix ↦ rw (mcar-at r p hp, fix, mcdr-at r p hp, ih) refl
    ]

pub any_flonum-Chain :
    {r : Runtime} {v e : Mobj} {xs : List Mobj}
    → IsFresh r
    → Chain r v xs e
    → any_flonum v r ≡ ok (has_flonum xs) r
unfolding any_flonum
any_flonum-Chain {r} fresh c =
    any_flonum_loop-Chain (suc r.ap) c (omega (arith, length-Chain fresh c))

pairwise_loop-Values :
    {r : Runtime} {v e : Mobj} {xs : List Mobj} {ns : List ℕ} (test : ℕ → ℕ → Bool)
    (value : Mobj → Cmd ℕ) (fuel prev : ℕ)
    → Chain r v xs e
    → Values r value xs ns
    → length xs < fuel
    → pairwise_loop test value fuel prev v r ≡ ok (mboolean (adjacent test prev ns)) r
unfolding pairwise_loop
pairwise_loop-Values test value zero prev c k lt = absurd (omega arith)
pairwise_loop-Values test value (suc fuel) prev (stop h) nil lt = rw (h) refl
pairwise_loop-Values {r} test value (suc fuel) prev (cell {p = p} hp c) (cons {n = n} read ks) lt =
    let ih = pairwise_loop-Values test value fuel n c ks (omega arith) in
    elim (Bool-cases (test prev n)) [
      | inl passes ↦ rw (mcar-at r p hp, read, passes, mcdr-at r p hp, ih) refl
      | inr fails ↦ rw (mcar-at r p hp, read, fails) refl
    ]

-- A comparison of the arguments answers whether each passes with the next.
pub pairwise-Values :
    {r : Runtime} {v e : Mobj} {xs : List Mobj} {n : ℕ} {ns : List ℕ} (test : ℕ → ℕ → Bool)
    (value : Mobj → Cmd ℕ)
    → IsFresh r
    → Chain r v xs e
    → Values r value xs (n ∷ ns)
    → pairwise test value v r ≡ ok (mboolean (adjacent test n ns)) r
unfolding pairwise
pairwise-Values {r} test value fresh (cell {p = p} hp c) (cons read ks) =
    let size = length-Chain fresh (cell hp c) in
    rw (mcar-at r p hp, read, mcdr-at r p hp)
      (pairwise_loop-Values test value (suc r.ap) _ c ks (omega arith))
pairwise-Values test value fresh (stop h) k = elim k [ ]
