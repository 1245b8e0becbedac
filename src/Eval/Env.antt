-- ===== src/Eval/Env.antt =====
-- src/eval.c: the lexical environment, the top-level environment and proper lists. A loop over a
-- chain of heap cells runs on the fuel `ap`: more cells than addresses in use would be a cycle, on
-- which the program does not stop.
pub mod Assoc
pub mod TopLevel
pub mod Lexical
pub mod ProperList
use minim.Base.{
  ℕ, zero, suc, ◌+◌, Bool, true, false, not, Option, none, some, List, [], ◌∷◌, if◌then◌else◌,
}
use minim.Object.{Mobj, ◌=?◌, mpairp, mnullp}
use minim.Runtime.{
  Cmd, ok, out_of_fuel, pure, get, merror, raise_if, ◌>>=◌, ◌>>◌, mcar, mcdr, mset_cdr,
  mtyped_obj_ref, mtyped_obj_set, typed_slots, menvp, unbound_variable, improper_list,
}
use minim.Alloc.{mcons}

-- `while (Mpairp(lst)) { n++; lst = Mcdr(lst); }`, then the test for the end.
unfoldable pub list_length_loop : ℕ → ℕ → Mobj → Cmd ℕ
list_length_loop zero n lst = λ _. out_of_fuel
list_length_loop (suc fuel) n lst =
    let rest = λ (tail : Mobj). list_length_loop fuel (n + 1) tail in
    if mpairp lst
    then (mcdr lst >>= rest)
    else (raise_if (not (mnullp lst)) improper_list >> pure n)

unfoldable pub list_length : Mobj → Cmd ℕ
list_length lst r = list_length_loop (suc r.ap) 0 lst r

-- The entry of the alist for `sym`: the loop that top_env_lookup and top_env_set share.
unfoldable pub top_env_find : ℕ → Mobj → Mobj → Cmd (Option Mobj)
top_env_find zero sym p = λ _. out_of_fuel
top_env_find (suc fuel) sym p =
    let next = λ (tail : Mobj). top_env_find fuel sym tail in
    if mpairp p
    then (do
      entry ← mcar p
      key ← mcar entry
      if key =? sym then pure (some entry) else (mcdr p >>= next))
    else pure none

unfoldable pub top_env_lookup : Mobj → Cmd (Option Mobj)
top_env_lookup sym = do
  r ← get
  found ← top_env_find (suc r.ap) sym r.top_level_env
  elim found [ none ↦ pure none | some entry ↦ do pure (some (← mcdr entry)) ]

unfoldable pub top_env_set : Mobj → Mobj → Cmd Bool
top_env_set sym val = do
  r ← get
  found ← top_env_find (suc r.ap) sym r.top_level_env
  elim found [ none ↦ pure false | some entry ↦ mset_cdr entry val >> pure true ]

unfoldable pub set_top_level_env : Mobj → Cmd (Unit {0})
set_top_level_env v r = ok tt (record r { top_level_env = v })

unfoldable pub top_env_define : Mobj → Mobj → Cmd (Unit {0})
top_env_define sym val = do
  done ← top_env_set sym val
  if done then pure tt else do
    entry ← mcons sym val
    r ← get
    env ← mcons entry r.top_level_env
    set_top_level_env env

-- The scan of a rib [name0 val0 name1 val1 ...]: the index of the first name that is `sym`.
unfoldable pub rib_index : Mobj → ℕ → List Mobj → Option ℕ
rib_index sym i [] = none
rib_index sym i (key ∷ []) = if key =? sym then some i else none
rib_index sym i (key ∷ val ∷ rest) = if key =? sym then some i else rib_index sym (i + 2) rest

-- The innermost rib that binds `sym`, and the index of its name.
unfoldable pub env_find : ℕ → Mobj → Mobj → Cmd (Option (Mobj × ℕ))
env_find zero env sym = λ _. out_of_fuel
env_find (suc fuel) env sym =
    let next = λ (parent : Mobj). env_find fuel parent sym in
    menvp env >>= λ is_env.
    if is_env
    then (do
      rib ← mtyped_obj_ref env 0
      xs ← typed_slots rib
      elim (rib_index sym 0 xs) [
        | some i ↦ pure (some (rib, i))
        | none ↦ (mtyped_obj_ref env 1 >>= next)
      ])
    else pure none

unfoldable pub env_lookup : Mobj → Mobj → Cmd Mobj
env_lookup env sym = do
  r ← get
  found ← env_find (suc r.ap) env sym
  elim found [
    | some (rib, i) ↦ mtyped_obj_ref rib (i + 1)
    | none ↦ do
      top ← top_env_lookup sym
      elim top [ some val ↦ pure val | none ↦ merror (unbound_variable sym) ]
  ]

unfoldable pub env_set : Mobj → Mobj → Mobj → Cmd Bool
env_set env sym val = do
  r ← get
  found ← env_find (suc r.ap) env sym
  elim found [ some (rib, i) ↦ mtyped_obj_set rib (i + 1) val >> pure true | none ↦ pure false ]
