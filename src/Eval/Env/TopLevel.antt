-- ===== src/Eval/Env/TopLevel.antt =====
-- src/eval.c: the top-level environment is an association list. Its cells are fresh when they are
-- made and stay behind their list, so that each lies below the one in front of it.
use minim.Base.{
  suc, ◌+◌, ◌<◌, ◌≡◌, ◌⊎◌, inl, inr, refl, ◌∙◌, true, false, Option, none, some, List, [], ◌∷◌,
  arith, Bool-cases, Option-cases, if◌then◌else◌,
}
use minim.Object.{Addr, Mobj, pair, ◌=?◌, =?→eq, =?_refl, cons_cell, object_size}
use minim.Runtime.{Runtime, ok, write, mset_cdr}
use minim.Runtime.Laws.{Keeps}
use minim.Runtime.Bind.{mcdr-at}
use minim.Alloc.{mcons}
use minim.Alloc.Laws.{allocated}
use minim.Eval.Env.{top_env_find, top_env_lookup, top_env_set, top_env_define, set_top_level_env}
use minim.Eval.Env.Assoc.{
  Finds, TopEnv, assoc, assoc_set, cons, entry, missing, nil, top_env_find-Finds,
}

module _ {r : Runtime} {xs : List (Mobj × Mobj)} (t : TopEnv r r.ap r.top_level_env xs) where
  -- The lookup answers as the association list does, and changes nothing.
  pub top_env_lookup-assoc : (sym : Mobj) → top_env_lookup sym r ≡ ok (assoc sym xs) r
  unfolding top_env_lookup
  top_env_lookup-assoc sym = go (top_env_find-Finds (suc r.ap) sym t (omega arith))
    where
      go :
          (o : Option Mobj) × (top_env_find (suc r.ap) sym r.top_level_env r ≡ ok o r)
            × Finds r sym r.ap r.top_level_env xs o
          → top_env_lookup sym r ≡ ok (assoc sym xs) r
      go (none, found, missing h) = rw (found, h)
      go (some _, found, entry {e = e} h he _ _) = rw (found, h) (rw (mcdr-at r e he))

  -- Where the top-level environment holds an association list, `top_env_set` answers false and changes
  -- nothing when the list lacks the name, and else answers true and gives the first entry for the name
  -- the new value.
  pub top_env_set-assoc_set :
      (sym w : Mobj)
      → ((assoc sym xs ≡ none) × (top_env_set sym w r ≡ ok false r))
        ⊎ ((v : Mobj) × (s : Runtime) × (assoc sym xs ≡ some v)
            × (top_env_set sym w r ≡ ok true s)
            × TopEnv s s.ap s.top_level_env (assoc_set sym w xs))
  unfolding top_env_set mset_cdr
  top_env_set-assoc_set sym w = go (top_env_find-Finds (suc r.ap) sym t (omega arith))
    where
      go :
          (o : Option Mobj) × (top_env_find (suc r.ap) sym r.top_level_env r ≡ ok o r)
            × Finds r sym r.ap r.top_level_env xs o
          → ((assoc sym xs ≡ none) × (top_env_set sym w r ≡ ok false r))
            ⊎ ((v : Mobj) × (s : Runtime) × (assoc sym xs ≡ some v)
                × (top_env_set sym w r ≡ ok true s)
                × TopEnv s s.ap s.top_level_env (assoc_set sym w xs))
      go (none, found, missing h) = inl (h, rw found)
      go (some _, found, entry {e = e} {k = k} {v = v} h he _ keep) =
          inr (v, write r e (cons_cell k w), h, rw found (ground arith), keep w)

pub TopEnv-frame :
    {r : Runtime} (s : Runtime) {n : Addr} {p : Mobj} {xs : List (Mobj × Mobj)}
    → TopEnv r n p xs
    → ((a : Addr) → a < n → s.heap a ≡ r.heap a)
    → TopEnv s n p xs
TopEnv-frame s nil same = nil
TopEnv-frame s (cons {p = p} {e = e} hp he ep pn rest) same =
    cons (same p pn ∙ hp) (same e (omega arith) ∙ he) ep pn
      (TopEnv-frame s rest λ a h. same a (omega arith))

-- The association list after a definition.
unfoldable pub bind : Mobj → Mobj → List (Mobj × Mobj) → List (Mobj × Mobj)
bind sym w xs = elim (assoc sym xs) [ none ↦ (sym, w) ∷ xs | some _ ↦ assoc_set sym w xs ]

assoc-assoc_set :
    (sym j w : Mobj) (xs : List (Mobj × Mobj)) {v : Mobj}
    → assoc sym xs ≡ some v
    → assoc j (assoc_set sym w xs) ≡ (if sym =? j then some w else assoc j xs)
unfolding assoc assoc_set
assoc-assoc_set sym j w [] h = cc
assoc-assoc_set sym j w ((k, u) ∷ xs) h = elim (Bool-cases (k =? sym)) [
  | inl here ↦ let e = =?→eq k sym here in rw here (ground (arith, e))
  | inr there ↦
      let ih = assoc-assoc_set sym j w xs (rw there at h) in
      ground (arith, ih, =?→eq k j, =?→eq sym j, =?_refl k)
]

bind_absent :
    (sym w : Mobj) (xs : List (Mobj × Mobj)) → assoc sym xs ≡ none → bind sym w xs ≡ (sym, w) ∷ xs
unfolding bind
bind_absent sym w xs h = rw (h, bind)

bind_present :
    (sym w : Mobj) (xs : List (Mobj × Mobj)) {v : Mobj}
    → assoc sym xs ≡ some v
    → bind sym w xs ≡ assoc_set sym w xs
unfolding bind
bind_present sym w xs h = rw (h, bind)

assoc-bind :
    (sym j w : Mobj) (xs : List (Mobj × Mobj))
    → assoc j (bind sym w xs) ≡ (if sym =? j then some w else assoc j xs)
unfolding assoc
assoc-bind sym j w xs = elim (Option-cases (assoc sym xs)) [
  | inl absent ↦ rw (bind_absent sym w xs absent)
  | inr (v, found) ↦ rw (bind_present sym w xs found) (assoc-assoc_set sym j w xs found)
]

module _ (r : Runtime) (sym w : Mobj) where
  -- The state after the entry and the cell in front of the list.
  abbrev pub entry_added : Runtime
  entry_added = allocated (cons_cell sym w) r

  abbrev pub prepended : Runtime
  prepended = record (allocated (cons_cell (pair r.ap) r.top_level_env) entry_added) {
    top_level_env = pair (r.ap + 16);
  }

  pub prepended-TopEnv :
      {xs : List (Mobj × Mobj)}
      → TopEnv r r.ap r.top_level_env xs
      → TopEnv prepended prepended.ap prepended.top_level_env ((sym, w) ∷ xs)
  unfolding object_size
  prepended-TopEnv t =
      cons (ground arith) (ground arith) (omega arith) (omega arith)
        (TopEnv-frame prepended t λ a h. ground arith)

top_env_define-TopEnv :
    {r : Runtime} {xs : List (Mobj × Mobj)} (sym w : Mobj)
    → TopEnv r r.ap r.top_level_env xs
    → (s : Runtime) × (top_env_define sym w r ≡ ok tt s)
      × TopEnv s s.ap s.top_level_env (bind sym w xs)
unfolding top_env_define set_top_level_env
top_env_define-TopEnv {r} {xs} sym w t = elim (top_env_set-assoc_set t sym w) [
  | inl (absent, skipped) ↦ (
    prepended r sym w,
    rw skipped (unfold mcons in refl),
    rw (bind_absent sym w xs absent) (prepended-TopEnv r sym w t),
  )
  | inr (v, s, found, done, t') ↦ (s, rw done, rw (bind_present sym w xs found) t')
]

-- Where the top-level environment holds an association list, `top_env_define` succeeds and leaves the
-- list of the definition, and every lookup afterwards gives the new value for the defined name and
-- what the list had for any other name.
pub top_env_lookup-define :
    (r : Runtime) (xs : List (Mobj × Mobj)) (sym w : Mobj)
    → TopEnv r r.ap r.top_level_env xs
    → (s : Runtime) × (top_env_define sym w r ≡ ok tt s)
      × TopEnv s s.ap s.top_level_env (bind sym w xs)
      × ((j : Mobj) → top_env_lookup j s ≡ ok (if sym =? j then some w else assoc j xs) s)
top_env_lookup-define r xs sym w t =
    let (s, done, t') = top_env_define-TopEnv sym w t in
    (s, done, t', λ j. rw (← assoc-bind sym j w xs) (top_env_lookup-assoc t' j))

-- A name that is not bound gets an entry in front.
pub top_env_define-prepended :
    {r : Runtime} {xs : List (Mobj × Mobj)} (sym w : Mobj)
    → TopEnv r r.ap r.top_level_env xs
    → assoc sym xs ≡ none
    → top_env_define sym w r ≡ ok tt (prepended r sym w)
unfolding top_env_define set_top_level_env
top_env_define-prepended sym w t absent = elim (top_env_set-assoc_set t sym w) [
  | inl (unbound, skipped) ↦ rw skipped (unfold mcons in refl)
  | inr (v, s, found, done, t') ↦ absurd (cc (absent, found))
]

pub TopEnv-Keeps :
    {r : Runtime} (s : Runtime) {n : Addr} {p : Mobj} {xs : List (Mobj × Mobj)}
    → Keeps r s
    → TopEnv r n p xs
    → TopEnv s n p xs
TopEnv-Keeps s k nil = nil
TopEnv-Keeps s k (cons {p = p} {e = e} hp he ep pn rest) =
    cons (k p _ hp) (k e _ he) ep pn (TopEnv-Keeps s k rest)
