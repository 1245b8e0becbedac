-- ===== src/Eval/Env/Assoc.antt =====
-- src/eval.c: association lists in the heap, and the search of one for an entry.
use minim.Base.{
  ℕ, zero, suc, ◌≤◌, ◌<◌, ◌≡◌, inl, inr, refl, true, false, Option, none, some, List, [], ◌∷◌,
  arith, Bool-cases, if◌then◌else◌,
}
use minim.Object.{Addr, Mobj, mnull, pair, ◌=?◌, Object, cons_cell}
use minim.Runtime.{Runtime, ok, write}
use minim.Runtime.Bind.{mcar-at, mcdr-at}
use minim.Eval.Env.{top_env_find}

-- The list `v`, whose addresses lie below the bound, holds these names and values.
pub data TopEnv (r : Runtime) : Addr → Mobj → List (Mobj × Mobj) → Type 0 where
  nil : {n : Addr} → TopEnv r n mnull []
  cons :
      {n p e : Addr} {k v rest : Mobj} {xs : List (Mobj × Mobj)}
      → r.heap p ≡ some (cons_cell (pair e) rest)
      → r.heap e ≡ some (cons_cell k v)
      → e < p
      → p < n
      → TopEnv r e rest xs
      → TopEnv r n (pair p) ((k, v) ∷ xs)

-- The value of the first entry for a name.
unfoldable pub assoc : Mobj → List (Mobj × Mobj) → Option Mobj
assoc sym [] = none
assoc sym ((k, v) ∷ xs) = if k =? sym then some v else assoc sym xs

-- The first entry for a name with another value.
unfoldable pub assoc_set : Mobj → Mobj → List (Mobj × Mobj) → List (Mobj × Mobj)
assoc_set sym w [] = []
assoc_set sym w ((k, v) ∷ xs) = if k =? sym then (k, w) ∷ xs else (k, v) ∷ assoc_set sym w xs

TopEnv-write :
    {r : Runtime} {n : Addr} {p : Mobj} {xs : List (Mobj × Mobj)} (a : Addr) (o : Object)
    → TopEnv r n p xs
    → n ≤ a
    → TopEnv (write r a o) n p xs
TopEnv-write a o nil h = nil
TopEnv-write a o (cons hp he ep pn rest) h =
    cons (ground arith) (ground arith) ep pn (TopEnv-write a o rest (omega arith))

pub TopEnv-mono :
    {r : Runtime} {n m : Addr} {p : Mobj} {xs : List (Mobj × Mobj)}
    → TopEnv r n p xs
    → n ≤ m
    → TopEnv r m p xs
TopEnv-mono nil h = nil
TopEnv-mono (cons hp he ep pn rest) h = cons hp he ep (omega arith) rest

-- What the search finds: no entry, or an entry that can be given another value.
pub data Finds (r : Runtime) (sym : Mobj) (n : Addr) (p : Mobj) (xs : List (Mobj × Mobj))
    : Option Mobj → Type 0 where
  missing : assoc sym xs ≡ none → Finds r sym n p xs none
  entry :
      {e : Addr} {k v : Mobj}
      → assoc sym xs ≡ some v
      → r.heap e ≡ some (cons_cell k v)
      → e < n
      → ((w : Mobj) → TopEnv (write r e (cons_cell k w)) n p (assoc_set sym w xs))
      → Finds r sym n p xs (some (pair e))

-- The entry in front, and the entries behind it.
module _ {r : Runtime} {n p e : Addr} {k v rest : Mobj} {xs : List (Mobj × Mobj)} (sym : Mobj)
    (hp : r.heap p ≡ some (cons_cell (pair e) rest)) (he : r.heap e ≡ some (cons_cell k v))
    (ep : e < p) (pn : p < n) (t : TopEnv r e rest xs) where
  Finds-head : (k =? sym) ≡ true → Finds r sym n (pair p) ((k, v) ∷ xs) (some (pair e))
  unfolding assoc assoc_set
  Finds-head here =
      entry (rw here) he (omega arith)
        λ w. rw here (cons (ground arith) (ground arith) ep pn (TopEnv-write e _ t (omega arith)))

  Finds-tail :
      {o : Option Mobj}
      → (k =? sym) ≡ false
      → Finds r sym e rest xs o
      → Finds r sym n (pair p) ((k, v) ∷ xs) o
  unfolding assoc assoc_set
  Finds-tail there (missing h) = missing (rw there h)
  Finds-tail there (entry {e = e'} found he' below keep) =
      entry (rw there found) he' (omega arith)
        λ w. rw there (cons (ground arith) (ground arith) ep pn (keep w))

pub top_env_find-Finds :
    {r : Runtime} {n : Addr} {p : Mobj} {xs : List (Mobj × Mobj)} (fuel : ℕ) (sym : Mobj)
    → TopEnv r n p xs
    → n < fuel
    → (o : Option Mobj) × (top_env_find fuel sym p r ≡ ok o r) × Finds r sym n p xs o
unfolding top_env_find assoc
top_env_find-Finds zero sym t h = absurd (omega arith)
top_env_find-Finds (suc fuel) sym nil h = (none, refl, missing refl)
top_env_find-Finds {r} (suc fuel) sym (cons {p = p} {e = e} {k = k} hp he ep pn rest) h =
    elim (Bool-cases (k =? sym)) [
      | inl here ↦ (
        some (pair e),
        rw (mcar-at r p hp, mcar-at r e he, here),
        Finds-head sym hp he ep pn rest here,
      )
      | inr there ↦
          let (o, found, finds) = top_env_find-Finds fuel sym rest (omega arith) in
          (
            o,
            rw (mcar-at r p hp, mcar-at r e he, there, mcdr-at r p hp) found,
            Finds-tail sym hp he ep pn rest there finds,
          )
    ]
