-- ===== src/Eval/Env/ProperList.antt =====
-- src/eval.c: chains of pairs, and `list_length` on them.
use mathlib.Core.Path.{subst}
use minim.Base.{
  ℕ, zero, suc, ◌+◌, ◌≤◌, ◌<◌, ◌≡◌, refl, ap, false, some, List, [], ◌∷◌, arith, length,
  if◌then◌else◌, NotIn, Distinct, AllBelow, length-Distinct,
}
use minim.Object.{Addr, Mobj, pair, mpairp, mnullp, cons_cell}
use minim.Runtime.{Runtime, Run, ok, error, improper_list}
use minim.Runtime.Laws.{IsFresh}
use minim.Runtime.Bind.{mcdr-at}
use minim.Eval.Env.{list_length_loop, list_length}

-- The pairs from `v` on hold these cars, and the last cdr is `e`, which is no pair.
pub data Chain (r : Runtime) : Mobj → List Mobj → Mobj → Type 0 where
  stop : {v : Mobj} → mpairp v ≡ false → Chain r v [] v
  cell :
      {p : Addr} {a d e : Mobj} {xs : List Mobj}
      → r.heap p ≡ some (cons_cell a d)
      → Chain r d xs e
      → Chain r (pair p) (a ∷ xs) e

abbrev cells : {r : Runtime} {v e : Mobj} {xs : List Mobj} → Chain r v xs e → List Addr
cells (stop h) = []
cells (cell {p = p} h c) = p ∷ cells c

-- The heap decides how long a chain is.
length-Chain_unique :
    {r : Runtime} {v e e' : Mobj} {xs ys : List Mobj}
    → Chain r v xs e
    → Chain r v ys e'
    → length xs ≡ length ys
length-Chain_unique (stop h) (stop k) = refl
length-Chain_unique (stop h) (cell k d) = cc
length-Chain_unique (cell h c) (stop k) = cc
length-Chain_unique {r} (cell {xs = xs} h c) (cell {e = e'} {xs = ys} k d) =
    ap suc (length-Chain_unique c (subst (λ x. Chain r x ys e') (cc (h, k)) d))

-- A cell stands in no chain that is shorter than its own.
cells-NotIn :
    {r : Runtime} {p : Addr} {v e e' : Mobj} {xs ys : List Mobj}
    → Chain r (pair p) ys e'
    → (c : Chain r v xs e) → length xs < length ys
    → NotIn p (cells c)
cells-NotIn own (stop h) lt = tt
cells-NotIn {r} {p} {e' = e'} {ys = ys} own (cell {p = q} {xs = xs} h c) lt = (
  λ same.
      let here : Chain r (pair q) ys e' = subst (λ a. Chain r (pair a) ys e') same own in
      let equal = length-Chain_unique here (cell h c) in absurd (omega (arith, equal)),
  cells-NotIn own c (omega arith),
)

cells-Distinct :
    {r : Runtime} {v e : Mobj} {xs : List Mobj} (c : Chain r v xs e) → Distinct (cells c)
cells-Distinct (stop h) = tt
cells-Distinct (cell h c) = (cells-NotIn (cell h c) c (omega arith), cells-Distinct c)

cells-AllBelow :
    {r : Runtime} {v e : Mobj} {xs : List Mobj}
    → IsFresh r
    → (c : Chain r v xs e) → AllBelow r.ap (cells c)
cells-AllBelow fresh (stop h) = tt
cells-AllBelow fresh (cell {p = p} h c) = (ground (arith, fresh.unused p), cells-AllBelow fresh c)

length-cells :
    {r : Runtime} {v e : Mobj} {xs : List Mobj} (c : Chain r v xs e) → length (cells c) ≡ length xs
length-cells (stop h) = refl
length-cells (cell h c) = ap suc (length-cells c)

-- A chain that ends has at most as many cells as there are addresses in use.
pub length-Chain :
    {r : Runtime} {v e : Mobj} {xs : List Mobj} → IsFresh r → Chain r v xs e → length xs ≤ r.ap
length-Chain {r} fresh c =
    let h = length-Distinct r.ap (cells c) (cells-Distinct c) (cells-AllBelow fresh c) in
    omega (arith, h, length-cells c)

-- What the loop gives at the end of a chain.
abbrev pub counted : Mobj → ℕ → Runtime → Run ℕ
counted e n r = if mnullp e then ok n r else error improper_list r

list_length_loop-counted :
    {r : Runtime} {v e : Mobj} {xs : List Mobj} (fuel n : ℕ)
    → Chain r v xs e
    → length xs < fuel
    → list_length_loop fuel n v r ≡ counted e (n + length xs) r
unfolding list_length_loop
list_length_loop-counted zero n c h = absurd (omega arith)
list_length_loop-counted (suc fuel) n (stop h) lt = ground arith
list_length_loop-counted {r} {e = e} (suc fuel) n (cell {p = p} {d = d} {xs = xs} hp c) lt =
    let ih = list_length_loop-counted fuel (n + 1) c (omega arith) in
    let count : n + 1 + length xs ≡ n + suc (length xs) = omega arith in
    rw (mcdr-at r p hp, ih, count)

-- On a chain of pairs in a heap whose objects lie below the allocation pointer, `list_length` ends: it
-- gives the number of the pairs when the chain ends with the empty list, raises when it ends with
-- anything else, and changes nothing.
pub list_length-Chain :
    {r : Runtime} {v e : Mobj} {xs : List Mobj}
    → IsFresh r
    → Chain r v xs e
    → list_length v r ≡ (if mnullp e then ok (length xs) r else error improper_list r)
unfolding list_length
list_length-Chain {r} {v} {e} {xs} fresh c =
    let h = list_length_loop-counted (suc r.ap) 0 c (omega (arith, length-Chain fresh c)) in
    let n : 0 + length xs ≡ length xs = omega arith in
    subst (λ k. list_length_loop (suc r.ap) 0 v r ≡ counted e k r) n h
