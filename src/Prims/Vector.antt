-- ===== src/Prims/Vector.antt =====
-- src/prims.c: the vector of the arguments.
use mathlib.Core.Path.{subst}
use minim.Base.{
  ℕ, zero, suc, ◌+◌, ◌<◌, ◌≡◌, ◌≢◌, refl, sym, ap, ◌∙◌, some, List, [], ◌∷◌, ◌++◌, arith, length,
  replicate, length-replicate, get_elem?, set, ==_ne, ==_refl,
}
use minim.Object.{Addr, Mobj, mfalse, typed, vector, Object, cons_cell, slots}
use minim.Runtime.{Runtime, Cmd, ok, pure, write, ◌>>◌, load, set_slot_of, mtyped_obj_set}
use minim.Runtime.Laws.{IsFresh}
use minim.Runtime.Bind.{mcar-at, mcdr-at}
use minim.Alloc.{mvector, gc_alloc}
use minim.Alloc.Laws.{allocated, gc_alloc-Keeps}
use minim.Eval.Env.ProperList.{Chain, cell, stop, length-Chain}
use minim.Prims.{for_each, walk}
use minim.Prims.Lists.{count_args, prim_vector}

for_each-count :
    {r : Runtime} {v e : Mobj} {xs : List Mobj} (fuel n : ℕ)
    → Chain r v xs e
    → length xs < fuel
    → for_each (λ (n : ℕ) (a : Mobj). pure (suc n)) fuel n v r ≡ ok (n + length xs) r
unfolding for_each
for_each-count zero n c lt = absurd (omega arith)
for_each-count {r} (suc fuel) n (stop h) lt =
    let none_left : n ≡ n + 0 = omega arith in rw (h) (ap (λ k. ok k r) none_left)
for_each-count {r} (suc fuel) n (cell {p = p} {xs = xs} hp c) lt =
    let ih = for_each-count fuel (suc n) c (omega arith) in
    let one_more : suc n + length xs ≡ n + suc (length xs) = omega arith in
    rw (mcar-at r p hp, mcdr-at r p hp, ih) (ap (λ k. ok k r) one_more)

get_elem?_middle :
    (pre : List Mobj) (y : Mobj) (rest : List Mobj)
    → get_elem? (pre ++ y ∷ rest) (length pre) ≡ some y
get_elem?_middle [] y rest = refl
get_elem?_middle (x ∷ pre) y rest = get_elem?_middle pre y rest

set_middle :
    (pre : List Mobj) (y x : Mobj) (rest : List Mobj)
    → set (pre ++ y ∷ rest) (length pre) x ≡ (pre ++ x ∷ []) ++ rest
set_middle [] y x rest = refl
set_middle (z ∷ pre) y x rest = ap (λ ys. z ∷ ys) (set_middle pre y x rest)

length_snoc : (pre : List Mobj) (x : Mobj) → length (pre ++ x ∷ []) ≡ suc (length pre)
length_snoc [] x = refl
length_snoc (z ∷ pre) x = ap suc (length_snoc pre x)

snoc_append : (pre : List Mobj) (x : Mobj) (xs : List Mobj) → (pre ++ x ∷ []) ++ xs ≡ pre ++ x ∷ xs
snoc_append [] x xs = refl
snoc_append (z ∷ pre) x xs = ap (λ ys. z ∷ ys) (snoc_append pre x xs)

clash :
    (r : Runtime) {ys : List Mobj} {a d : Mobj} {p q : Addr}
    → r.heap q ≡ some (slots vector ys)
    → r.heap p ≡ some (cons_cell a d)
    → q ≡ p
    → ⊥
clash r h hp same = cc

-- A write to a vector leaves the chains.
Chain-write :
    {r : Runtime} {v e : Mobj} {xs ys : List Mobj} (q : Addr) (zs : List Mobj)
    → r.heap q ≡ some (slots vector ys)
    → Chain r v xs e
    → Chain (write r q (slots vector zs)) v xs e
Chain-write q zs h (stop k) = stop k
Chain-write {r} q zs h (cell {p = p} hp c) =
    cell (rw (==_ne q p (λ same. clash r h hp same)) hp) (Chain-write q zs h c)

mtyped_obj_set-at :
    (r : Runtime) (q : Addr) (pre : List Mobj) (y x : Mobj) (rest : List Mobj)
    → r.heap q ≡ some (slots vector (pre ++ y ∷ rest))
    → mtyped_obj_set (typed q) (length pre) x r
      ≡ ok tt (write r q (slots vector ((pre ++ x ∷ []) ++ rest)))
unfolding mtyped_obj_set
mtyped_obj_set-at r q pre y x rest h =
    rw (h, load) (rw (get_elem?_middle pre y rest, set_slot_of) (rw (set_middle pre y x rest) refl))

-- The vector at `q` has been filled, and nothing else is changed.
pub record Filled (q : Addr) (ys : List Mobj) (s s' : Runtime) : Type 0 where
  pub holds : s'.heap q ≡ some (slots vector ys)
  pub others : (p : Addr) → q ≢ p → s'.heap p ≡ s.heap p
  pub same_ap : s'.ap ≡ s.ap

abbrev fill_body : Addr → ℕ → Mobj → Cmd ℕ
fill_body q i a = mtyped_obj_set (typed q) i a >> pure (suc i)

for_each-Filled :
    (fuel : ℕ) (q : Addr) (pre rest : List Mobj) (s : Runtime) {v e : Mobj} {xs : List Mobj}
    → s.heap q ≡ some (slots vector (pre ++ rest))
    → length rest ≡ length xs
    → Chain s v xs e
    → length xs < fuel
    → (s' : Runtime) × (n : ℕ) × (for_each (fill_body q) fuel (length pre) v s ≡ ok n s')
      × Filled q (pre ++ xs) s s'
unfolding for_each
for_each-Filled zero q pre rest s at_q size c lt = absurd (omega arith)
for_each-Filled (suc fuel) q pre [] s at_q size (stop h) lt =
    (s, length pre, rw (h) refl, record { holds = at_q; others = λ p k. refl; same_ap = refl })
for_each-Filled (suc fuel) q pre (y ∷ rest) s at_q size (stop h) lt = absurd (omega arith)
for_each-Filled (suc fuel) q pre [] s at_q size (cell hp c) lt = absurd (omega arith)
for_each-Filled (suc fuel) q pre (y ∷ rest) s at_q size
      (cell {p = p} {a = a} {d = d} {xs = xs} hp c) lt =
    let zs = (pre ++ a ∷ []) ++ rest in
    let s1 = write s q (slots vector zs) in
    let set_one = mtyped_obj_set-at s q pre y a rest at_q in
    let hp1 : s1.heap p ≡ some (cons_cell a d) = rw (==_ne q p (λ same. clash s at_q hp same)) hp in
    let (s', n, run, f) =
      for_each-Filled fuel q (pre ++ a ∷ []) rest s1 (rw (==_refl q) refl) (omega arith)
        (Chain-write q zs at_q c) (omega arith) in
    let run' : for_each (fill_body q) fuel (suc (length pre)) d s1 ≡ ok n s' =
      subst (λ k. for_each (fill_body q) fuel k d s1 ≡ ok n s') (length_snoc pre a) run in
    (
      s',
      n,
      rw (mcar-at s p hp, set_one, mcdr-at s1 p hp1, run') refl,
      record {
        holds = f.holds ∙ ap (λ ys. some (slots vector ys)) (snoc_append pre a xs);
        others = λ p' k. f.others p' k ∙ rw (==_ne q p' k) refl;
        same_ap = f.same_ap;
      },
    )

Chain-allocated :
    {r : Runtime} {v e : Mobj} {xs : List Mobj} (o : Object)
    → IsFresh r
    → Chain r v xs e
    → Chain (allocated o r) v xs e
Chain-allocated o fresh (stop h) = stop h
Chain-allocated {r} o fresh (cell {p = p} hp c) =
    cell (gc_alloc-Keeps o fresh p _ hp) (Chain-allocated o fresh c)

-- On a chain of arguments in a heap whose objects lie below the allocation pointer, `vector` gives a new
-- vector whose slots are the arguments in their order, and every object that was there is unchanged.
pub prim_vector-Chain :
    {r : Runtime} {args e : Mobj} {xs : List Mobj}
    → IsFresh r
    → Chain r args xs e
    → (s : Runtime) × (prim_vector args r ≡ ok (typed r.ap) s)
      × (s.heap r.ap ≡ some (slots vector xs))
      × ((p : Addr) → p ≢ r.ap → s.heap p ≡ r.heap p)
unfolding prim_vector count_args walk mvector gc_alloc
prim_vector-Chain {r} {args} {e} {xs} fresh c =
    let bound = length-Chain fresh c in
    let blank = slots vector (replicate (length xs) mfalse) in
    let s0 = allocated blank r in
    let counted = for_each-count (suc r.ap) 0 c (omega arith) in
    let size : 0 + length xs ≡ length xs = omega arith in
    let (s, n, run, f) =
      for_each-Filled (suc s0.ap) r.ap [] (replicate (length xs) mfalse) s0 (rw (==_refl r.ap) refl)
        (length-replicate (length xs) mfalse) (Chain-allocated blank fresh c) (omega arith) in
    (
      s,
      rw (counted, size, run) refl,
      f.holds,
      λ p k. f.others p (λ same. k (sym same)) ∙ rw (==_ne r.ap p (λ same. k (sym same))) refl,
    )
