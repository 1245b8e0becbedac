-- ===== src/Eval/Env/Lexical.antt =====
-- src/eval.c: the lexical environment is a chain of ribs, searched from the innermost outwards. A
-- frame is made after its rib and the rib after the frame that it extends, so addresses fall.
use mathlib.Core.Path.{subst}
use native.Mathlib.Numerals.{add-one}
use minim.Base.{
  ℕ, zero, suc, ◌+◌, ◌≤◌, ◌<◌, ◌≡◌, ◌⊎◌, inl, inr, refl, ap, ◌∙◌, Bool, true, false, Option, none,
  some, List, [], ◌∷◌, arith, Bool-cases, Option-cases, if◌then◌else◌, get_elem?, set,
}
use minim.Object.{Addr, Mobj, mnull, typed, ◌=?◌, slots, env, vector}
use minim.Runtime.{
  Runtime, fault, of_option, ok, error, write, unbound_variable, menvp, mtyped_obj_ref,
  mtyped_obj_set,
}
use minim.Eval.Env.{rib_index, env_find, env_lookup, env_set}
use minim.Eval.Env.TopLevel.{top_env_lookup-assoc}
use minim.Eval.Env.Assoc.{TopEnv, assoc}

-- Names and values alternate.
abbrev pub Even : List Mobj → Type 0
Even [] = Unit {0}
Even (k ∷ []) = ⊥
Even (k ∷ v ∷ xs) = Even xs

-- The chain `v`, whose addresses lie below the bound, has these ribs.
pub data Env (r : Runtime) : Addr → Mobj → List (List Mobj) → Type 0 where
  nil : {n : Addr} → Env r n mnull []
  frame :
      {n p q : Addr} {parent : Mobj} {xs : List Mobj} {ribs : List (List Mobj)}
      → r.heap p ≡ some (slots env (typed q ∷ parent ∷ []))
      → r.heap q ≡ some (slots vector xs)
      → Even xs
      → q < p
      → p < n
      → Env r q parent ribs
      → Env r n (typed p) (xs ∷ ribs)

unfoldable pub rib_get : Mobj → List Mobj → Option Mobj
rib_get sym [] = none
rib_get sym (k ∷ []) = none
rib_get sym (k ∷ v ∷ xs) = if k =? sym then some v else rib_get sym xs

unfoldable pub rib_set : Mobj → Mobj → List Mobj → List Mobj
rib_set sym w [] = []
rib_set sym w (k ∷ []) = k ∷ []
rib_set sym w (k ∷ v ∷ xs) = if k =? sym then k ∷ w ∷ xs else k ∷ v ∷ rib_set sym w xs

-- The value of the innermost binding.
unfoldable pub ribs_get : Mobj → List (List Mobj) → Option Mobj
ribs_get sym [] = none
ribs_get sym (xs ∷ ribs) = elim (rib_get sym xs) [ some v ↦ some v | none ↦ ribs_get sym ribs ]

-- The innermost binding with another value.
unfoldable pub ribs_set : Mobj → Mobj → List (List Mobj) → List (List Mobj)
ribs_set sym w [] = []
ribs_set sym w (xs ∷ ribs) = elim (rib_get sym xs) [
  | some v ↦ rib_set sym w xs ∷ ribs
  | none ↦ xs ∷ ribs_set sym w ribs
]

-- What the scan of a rib finds, from an index on.
data Scan (sym : Mobj) (i : ℕ) (xs : List Mobj) : Option ℕ → Type 0 where
  absent : rib_get sym xs ≡ none → Scan sym i xs none
  present :
      {j : ℕ} {v : Mobj} (o : ℕ)
      → j ≡ i + o
      → rib_get sym xs ≡ some v
      → get_elem? xs (suc o) ≡ some v
      → ((w : Mobj) → set xs (suc o) w ≡ rib_set sym w xs)
      → Scan sym i xs (some j)

rib_index-Scan :
    (sym : Mobj) (i : ℕ) (xs : List Mobj) → Even xs → Scan sym i xs (rib_index sym i xs)
unfolding rib_index rib_get rib_set
rib_index-Scan sym i [] h = absent refl
rib_index-Scan sym i (k ∷ []) h = absurd h
rib_index-Scan sym i (k ∷ v ∷ xs) h = go (k =? sym) refl (rib_index-Scan sym (i + 2) xs h)
  where
    go :
        (b : Bool)
        → (k =? sym) ≡ b
        → Scan sym (i + 2) xs (rib_index sym (i + 2) xs)
        → Scan sym i (k ∷ v ∷ xs) (rib_index sym i (k ∷ v ∷ xs))
    go true e s = rw e (present {v = v} 0 (omega arith) (rw e) refl (λ w. rw e))
    go false e s = rw e (behind e s)
      where
        behind :
            {o : Option ℕ} → (k =? sym) ≡ false → Scan sym (i + 2) xs o → Scan sym i (k ∷ v ∷ xs) o
        behind e (absent a) = absent (rw e a)
        behind e (present o at_o found got keep) =
            present (suc (suc o)) (omega arith) (rw e found) got
              (λ w. rw e (ap (λ t. k ∷ v ∷ t) (keep w)))

pub Env-frame :
    {r : Runtime} (s : Runtime) {n : Addr} {v : Mobj} {ribs : List (List Mobj)}
    → Env r n v ribs
    → ((a : Addr) → a < n → s.heap a ≡ r.heap a)
    → Env s n v ribs
Env-frame s nil same = nil
Env-frame s (frame {p = p} {q = q} hp hq even qp pn rest) same =
    frame (same p pn ∙ hp) (same q (omega arith) ∙ hq) even qp pn
      (Env-frame s rest λ a h. same a (omega arith))

pub Env-mono :
    {r : Runtime} {n m : Addr} {v : Mobj} {ribs : List (List Mobj)}
    → Env r n v ribs
    → n ≤ m
    → Env r m v ribs
Env-mono nil h = nil
Env-mono (frame hp hq even qp pn rest) h = frame hp hq even qp (omega arith) rest

-- What the search of the chain finds: nothing, or a rib and the index of a name in it.
data Search (r : Runtime) (sym : Mobj) (n : Addr) (v : Mobj) (ribs : List (List Mobj))
    : Option (Mobj × ℕ) → Type 0 where
  unbound : ribs_get sym ribs ≡ none → Search r sym n v ribs none
  bound :
      {q : Addr} {xs : List Mobj} {u : Mobj} (i : ℕ)
      → r.heap q ≡ some (slots vector xs)
      → q < n
      → get_elem? xs (suc i) ≡ some u
      → rib_get sym xs ≡ some u
      → ((w : Mobj) → set xs (suc i) w ≡ rib_set sym w xs)
      → ribs_get sym ribs ≡ some u
      → ((w : Mobj) → Env (write r q (slots vector (set xs (suc i) w))) n v (ribs_set sym w ribs))
      → Search r sym n v ribs (some (typed q, i))

Even-rib_set : (sym w : Mobj) (xs : List Mobj) → Even xs → Even (rib_set sym w xs)
unfolding rib_set
Even-rib_set sym w [] h = tt
Even-rib_set sym w (k ∷ []) h = h
Even-rib_set sym w (k ∷ v ∷ xs) h = elim (Bool-cases (k =? sym)) [
  | inl here ↦ rw here h
  | inr there ↦ rw there (Even-rib_set sym w xs h)
]

-- The innermost rib binds the name, or does not.
module _ (sym : Mobj) (xs : List Mobj) (ribs : List (List Mobj)) where
  ribs_get_in : {v : Mobj} → rib_get sym xs ≡ some v → ribs_get sym (xs ∷ ribs) ≡ some v
  unfolding ribs_get
  ribs_get_in h = rw (h, ribs_get)

  ribs_get_out : rib_get sym xs ≡ none → ribs_get sym (xs ∷ ribs) ≡ ribs_get sym ribs
  unfolding ribs_get
  ribs_get_out h = rw (h, ribs_get)

  ribs_set_in :
      (w : Mobj) {v : Mobj}
      → rib_get sym xs ≡ some v
      → ribs_set sym w (xs ∷ ribs) ≡ rib_set sym w xs ∷ ribs
  unfolding ribs_set
  ribs_set_in w h = rw (h, ribs_set)

  ribs_set_out :
      (w : Mobj) → rib_get sym xs ≡ none → ribs_set sym w (xs ∷ ribs) ≡ xs ∷ ribs_set sym w ribs
  unfolding ribs_set
  ribs_set_out w h = rw (h, ribs_set)

module _ (r : Runtime) {p q : Addr} {parent : Mobj} {xs : List Mobj}
    (hp : r.heap p ≡ some (slots env (typed q ∷ parent ∷ [])))
    (hq : r.heap q ≡ some (slots vector xs)) (fuel : ℕ) (sym : Mobj) where
  env_find_here :
      {i : ℕ}
      → rib_index sym 0 xs ≡ some i
      → env_find (suc fuel) (typed p) sym r ≡ ok (some (typed q, i)) r
  unfolding env_find menvp mtyped_obj_ref
  env_find_here h = ground arith

  env_find_parent :
      rib_index sym 0 xs ≡ none → env_find (suc fuel) (typed p) sym r ≡ env_find fuel parent sym r
  unfolding env_find menvp mtyped_obj_ref
  env_find_parent h = ground arith

env_find-Search :
    {r : Runtime} {n : Addr} {v : Mobj} {ribs : List (List Mobj)} (fuel : ℕ) (sym : Mobj)
    → Env r n v ribs
    → n < fuel
    → (o : Option (Mobj × ℕ)) × (env_find fuel v sym r ≡ ok o r) × Search r sym n v ribs o
env_find-Search zero sym t h = absurd (omega arith)
env_find-Search (suc fuel) sym nil h =
    (none, unfold env_find menvp in refl, unbound (unfold ribs_get in refl))
env_find-Search {r} {n} (suc fuel) sym
      (frame {p = p} {q = q} {parent = parent} {xs = xs} {ribs = ribs} hp hq even qp pn rest) h =
    go (rib_index sym 0 xs) refl (rib_index-Scan sym 0 xs even)
      (env_find-Search fuel sym rest (omega arith))
  where
    Goal : Type 0
    Goal =
        (o : Option (Mobj × ℕ)) × (env_find (suc fuel) (typed p) sym r ≡ ok o r)
        × Search r sym n (typed p) (xs ∷ ribs) o

    outer :
        {o : Option (Mobj × ℕ)}
        → rib_get sym xs ≡ none
        → Search r sym q parent ribs o
        → Search r sym n (typed p) (xs ∷ ribs) o
    outer none_here (unbound e) = unbound (ribs_get_out sym xs ribs none_here ∙ e)
    outer none_here (bound {q = q'} i hq' below got here put found keep) =
        bound i hq' (omega arith) got here put (ribs_get_out sym xs ribs none_here ∙ found) λ w.
          rw (ribs_set_out sym xs ribs w none_here)
            (frame (ground arith) (ground arith) even qp pn (keep w))

    inner :
        {j : ℕ} {u : Mobj}
        → rib_get sym xs ≡ some u
        → get_elem? xs (suc j) ≡ some u
        → ((w : Mobj) → set xs (suc j) w ≡ rib_set sym w xs)
        → Search r sym n (typed p) (xs ∷ ribs) (some (typed q, j))
    inner {j} found got keep =
        bound j hq (omega arith) got found keep (ribs_get_in sym xs ribs found) λ w.
          rw (ribs_set_in sym xs ribs w found, keep w)
            (frame (ground arith) (ground arith) (Even-rib_set sym w xs even) qp pn
              (Env-frame _ rest λ a h. ground arith))

    go :
        (j : Option ℕ)
        → rib_index sym 0 xs ≡ j
        → Scan sym 0 xs j
        → (o : Option (Mobj × ℕ)) × (env_find fuel parent sym r ≡ ok o r)
          × Search r sym q parent ribs o
        → Goal
    go none e (absent a) (o, found, outcome) =
        (o, env_find_parent r hp hq fuel sym e ∙ found, outer a outcome)
    go (some j) e (present {v = v} i at_i found got keep) ih =
        let i_eq : i ≡ j = omega arith in
        (
          some (typed q, j),
          env_find_here r hp hq fuel sym e,
          inner found (subst (λ m. get_elem? xs (suc m) ≡ some v) i_eq got)
              (λ w. subst (λ m. set xs (suc m) w ≡ rib_set sym w xs) i_eq (keep w)),
        )

module _ (r : Runtime) (q : Addr) {xs : List Mobj} (hq : r.heap q ≡ some (slots vector xs)) where
  ref_at : (i : ℕ) → mtyped_obj_ref (typed q) i r ≡ of_option (get_elem? xs i) r
  unfolding mtyped_obj_ref
  ref_at i = ground arith

  set_at :
      (i : ℕ) (w : Mobj)
      → mtyped_obj_set (typed q) i w r ≡ (elim (get_elem? xs i) [
        | none ↦ fault
        | some _ ↦ ok tt (write r q (slots vector (set xs i w)))
      ])
  unfolding mtyped_obj_set
  set_at i w = ground arith

module _ {r : Runtime} {v : Mobj} {ribs : List (List Mobj)} {xs : List (Mobj × Mobj)}
    (lexical : Env r r.ap v ribs) (top : TopEnv r r.ap r.top_level_env xs) (sym : Mobj) where
  -- Where the lexical environment is a chain of ribs and the top level an association list,
  -- `env_lookup` gives the innermost lexical binding, then the top-level one, and raises `unbound
  -- variable` when there is neither.
  pub env_lookup_lem : env_lookup v sym r ≡ (elim (ribs_get sym ribs) [
    | some u ↦ ok u r
    | none ↦ elim (assoc sym xs) [ some u ↦ ok u r | none ↦ error (unbound_variable sym) r ]
  ])
  unfolding env_lookup
  env_lookup_lem = go (env_find-Search (suc r.ap) sym lexical (omega arith))
    where
      go :
          (o : Option (Mobj × ℕ)) × (env_find (suc r.ap) v sym r ≡ ok o r)
            × Search r sym r.ap v ribs o
          → env_lookup v sym r ≡ (elim (ribs_get sym ribs) [
            | some u ↦ ok u r
            | none ↦ elim (assoc sym xs) [ some u ↦ ok u r | none ↦ error (unbound_variable sym) r ]
          ])
      go (none, found, unbound e) = elim (Option-cases (assoc sym xs)) [
        | inl absent_top ↦ rw (found, e, top_env_lookup-assoc top sym, absent_top)
        | inr (u, present_top) ↦ rw (found, e, top_env_lookup-assoc top sym, present_top)
      ]
      go (some _, found, bound {q = q} i hq below got here put e keep) =
          rw (found, e, add-one, ref_at r q hq (suc i), got)

module _ {r : Runtime} {v : Mobj} {ribs : List (List Mobj)} (lexical : Env r r.ap v ribs)
    (sym : Mobj) where
  -- Where the lexical environment is a chain of ribs, `env_set` answers false and changes nothing when
  -- no rib binds the name. Else it answers true: the chain has the innermost binding with the new value
  -- and is otherwise as it was, and the whole state differs from the one before in one object only, the
  -- vector of a rib that binds the name to the old value, whose first binding of it has the new value.
  pub env_set_lem :
      (w : Mobj)
      → ((ribs_get sym ribs ≡ none) × (env_set v sym w r ≡ ok false r))
        ⊎ ((u : Mobj) × (q : Addr) × (xs : List Mobj) × (ribs_get sym ribs ≡ some u)
            × (rib_get sym xs ≡ some u)
            × (r.heap q ≡ some (slots vector xs))
            × (env_set v sym w r ≡ ok true (write r q (slots vector (rib_set sym w xs))))
            × Env (write r q (slots vector (rib_set sym w xs))) r.ap v (ribs_set sym w ribs))
  unfolding env_set
  env_set_lem w = go (env_find-Search (suc r.ap) sym lexical (omega arith))
    where
      go :
          (o : Option (Mobj × ℕ)) × (env_find (suc r.ap) v sym r ≡ ok o r)
            × Search r sym r.ap v ribs o
          → ((ribs_get sym ribs ≡ none) × (env_set v sym w r ≡ ok false r))
            ⊎ ((u : Mobj) × (q : Addr) × (xs : List Mobj) × (ribs_get sym ribs ≡ some u)
                × (rib_get sym xs ≡ some u)
                × (r.heap q ≡ some (slots vector xs))
                × (env_set v sym w r ≡ ok true (write r q (slots vector (rib_set sym w xs))))
                × Env (write r q (slots vector (rib_set sym w xs))) r.ap v (ribs_set sym w ribs))
      go (none, found, unbound e) = inl (e, rw found)
      go (some _, found, bound {q = q} {xs = ys} {u = u} i hq below got here put e keep) = inr (
        u,
        q,
        ys,
        e,
        here,
        hq,
        rw (found, add-one, set_at r q hq (suc i) w, got, put w),
        rw (put w) at (keep w),
      )
