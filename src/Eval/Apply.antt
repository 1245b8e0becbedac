-- ===== src/Eval/Apply.antt =====
-- src/eval.c, `step_apply`, one function for each kind of frame, and `Meval`.
use minim.Base.{ℕ, zero, suc, ◌+◌, ◌*◌, ◌^◌, not, ◌&&◌, ltb, ◌==◌, if◌then◌else◌, get_elem?}
use minim.Object.{
  Mobj, fixnum, mfalse, mnull, mvoid, ◌=?◌, mpairp, mnullp, mfalsep, mclosurep, sign_extend,
}
use minim.Runtime.{
  PrimFn, Cmd, ok, fault, out_of_fuel, pure, get, merror, raise_if, of_option, and_then, ◌>>=◌,
  ◌>>◌, mcar, mcdr, mtyped_obj_ref, mtyped_obj_set, mclosure_slots, mclosure_set_name, mprimp,
  mkontp, set_mode, set_expr, set_env, set_kont, eval_mode, apply_mode, halt_mode, empty_seq_frame,
  closure_arity, closure_empty_body, prim_at_least, prim_at_most, kont_invocation, not_a_procedure,
  set_unbound, unhandled_kont,
}
use minim.Alloc.{
  mcons, mvector, menv_extend, mkont, kont_halt, kont_if, kont_seq, kont_app, kont_set, kont_define,
  kont_let,
}
use minim.Eval.Env.{list_length, env_set, top_env_set, top_env_define}
use minim.Eval.Step.{enter_body, head_init, step_eval}

unfoldable pub apply_if : Mobj → Cmd (Unit {0})
apply_if k = do
  then_e ← mtyped_obj_ref k 3
  else_e ← mtyped_obj_ref k 4
  r ← get
  env ← mtyped_obj_ref k 2
  set_env env
  parent ← mtyped_obj_ref k 1
  set_kont parent
  set_expr (if mfalsep r.eval_expr then else_e else then_e)
  set_mode eval_mode

unfoldable pub apply_seq : Mobj → Cmd (Unit {0})
apply_seq k = do
  rest ← mtyped_obj_ref k 3
  raise_if (mnullp rest) empty_seq_frame
  first ← mcar rest
  more ← mcdr rest
  if mnullp more
      then (do env ← mtyped_obj_ref k 2; set_env env; parent ← mtyped_obj_ref k 1; set_kont parent)
      else (do mtyped_obj_set k 3 more; env ← mtyped_obj_ref k 2; set_env env)
  set_expr first
  set_mode eval_mode

-- `while (Mpairp(walk))`: the list `evald`, reversed in fresh pairs.
unfoldable pub reverse_loop : ℕ → Mobj → Mobj → Cmd Mobj
reverse_loop zero walk reversed = λ _. out_of_fuel
reverse_loop (suc fuel) walk reversed =
    let next = λ (tail reversed' : Mobj). reverse_loop fuel tail reversed' in
    if mpairp walk
    then (do a ← mcar walk; reversed' ← mcons a reversed; tail ← mcdr walk; next tail reversed')
    else pure reversed

-- The rib [p0 a0 p1 a1 ...]: `n` pairs of slots from index `i`.
unfoldable pub fill_rib : ℕ → ℕ → Mobj → Mobj → Mobj → Cmd (Unit {0})
fill_rib zero i rib p a = pure tt
fill_rib (suc n) i rib p a =
    let next = λ (p' a' : Mobj). fill_rib n (suc i) rib p' a' in
    do
      name ← mcar p
      mtyped_obj_set rib (2 * i) name
      value ← mcar a
      mtyped_obj_set rib (2 * i + 1) value
      p' ← mcdr p
      a' ← mcdr a
      next p' a'

unfoldable pub apply_closure : Mobj → Mobj → Cmd (Unit {0})
apply_closure op args = do
  c ← mclosure_slots op
  n_params ← list_length c.params
  n_args ← list_length args
  raise_if (not (n_params == n_args)) (closure_arity n_params n_args)
  raise_if (mnullp c.body) closure_empty_body
  rib ← mvector (2 * n_params) mfalse
  fill_rib n_params 0 rib c.params args
  env ← menv_extend rib c.env
  set_env env
  enter_body c.body
  set_mode eval_mode

-- Mfixnum_val: the 64-bit pattern of a fixnum.
unfoldable pub mfixnum_val : Mobj → Cmd ℕ
mfixnum_val (fixnum n) = pure (sign_extend n)
mfixnum_val _ = λ r. fault

unfoldable pub mprim_fn_of : Mobj → Cmd PrimFn
mprim_fn_of v = do
  idx ← mfixnum_val (← mtyped_obj_ref v 3)
  r ← get
  of_option (get_elem? r.prim_fn_table idx)

-- KONT_DEFINE: a closure without a name takes the name.
unfoldable pub apply_define : Mobj → Cmd (Unit {0})
apply_define k = do
  parent ← mtyped_obj_ref k 1
  saved_env ← mtyped_obj_ref k 2
  name ← mtyped_obj_ref k 3
  r ← get
  if mclosurep r.eval_expr
      then (do
        c ← mclosure_slots r.eval_expr
        if mfalsep c.name then mclosure_set_name r.eval_expr name else pure tt)
      else pure tt
  top_env_define name r.eval_expr
  set_env saved_env
  set_kont parent
  set_expr mvoid
  set_mode apply_mode

-- KONT_SET: the innermost lexical binding, then the top level.
unfoldable pub apply_set : Mobj → Cmd (Unit {0})
apply_set k = do
  parent ← mtyped_obj_ref k 1
  saved_env ← mtyped_obj_ref k 2
  name ← mtyped_obj_ref k 3
  r ← get
  done ← env_set saved_env name r.eval_expr
  if done
      then pure tt
      else do top ← top_env_set name r.eval_expr; raise_if (not top) (set_unbound name)
  set_env saved_env
  set_kont parent
  set_expr mvoid
  set_mode apply_mode

-- `for (e = evald; Mpairp(e); e = Mcdr(e)) count++`.
unfoldable pub count_pairs : ℕ → ℕ → Mobj → Cmd ℕ
count_pairs zero n e = λ _. out_of_fuel
count_pairs (suc fuel) n e =
    let next = λ (tail : Mobj). count_pairs fuel (suc n) tail in
    if mpairp e then (mcdr e >>= next) else pure n

-- The (var . val) pairs of `evald`, from slot `i` on.
unfoldable pub fill_evald : ℕ → ℕ → Mobj → Mobj → Cmd (Unit {0})
fill_evald zero i rib e = λ _. out_of_fuel
fill_evald (suc fuel) i rib e =
    let next = λ (tail : Mobj). fill_evald fuel (i + 2) rib tail in
    if mpairp e
    then (do
      p ← mcar e
      name ← mcar p
      mtyped_obj_set rib i name
      value ← mcdr p
      mtyped_obj_set rib (i + 1) value
      mcdr e >>= next)
    else pure tt

-- KONT_LET with no binding left: the rib of all of them, and the body.
unfoldable pub let_enter : Mobj → Mobj → Mobj → Mobj → Mobj → Mobj → Cmd (Unit {0})
let_enter parent saved_env evald body var value = do
  r ← get
  count ← count_pairs (suc r.ap) 1 evald
  rib ← mvector (2 * count) mfalse
  mtyped_obj_set rib 0 var
  mtyped_obj_set rib 1 value
  fill_evald (suc r.ap) 2 rib evald
  env ← menv_extend rib saved_env
  set_env env
  set_kont parent
  enter_body body

-- KONT_LET with more to come: the frame keeps what is left, and the next init is evaluated.
unfoldable pub let_next : Mobj → Mobj → Mobj → Mobj → Mobj → Cmd (Unit {0})
let_next saved_env evald var value rest_pending = do
  new_pair ← mcons var value
  evald' ← mcons new_pair evald
  r ← get
  mtyped_obj_set r.eval_kont 3 rest_pending
  mtyped_obj_set r.eval_kont 4 evald'
  set_env saved_env
  init ← head_init rest_pending
  set_expr init

unfoldable pub apply_let : Mobj → Cmd (Unit {0})
apply_let k = do
  pending ← mtyped_obj_ref k 3
  evald ← mtyped_obj_ref k 4
  body ← mtyped_obj_ref k 5
  parent ← mtyped_obj_ref k 1
  saved_env ← mtyped_obj_ref k 2
  r ← get
  binding ← mcar pending
  var ← mcar binding
  rest_pending ← mcdr pending
  if mnullp rest_pending
      then let_enter parent saved_env evald body var r.eval_expr
      else let_next saved_env evald var r.eval_expr rest_pending
  set_mode eval_mode

-- `call_prim` runs the C function behind a primitive on the list of its arguments.
module _ (call_prim : PrimFn → Mobj → Cmd Mobj) where
  unfoldable pub apply_prim : Mobj → Mobj → Cmd (Unit {0})
  apply_prim op args = do
    arity_min ← mfixnum_val (← mtyped_obj_ref op 1)
    arity_max ← mfixnum_val (← mtyped_obj_ref op 2)
    n_args ← list_length args
    if ltb n_args arity_min
        then (mtyped_obj_ref op 0 >>= λ name. merror (prim_at_least name arity_min n_args))
        else pure tt
    if ltb arity_max (2 ^ 63) && ltb arity_max n_args
        then (mtyped_obj_ref op 0 >>= λ name. merror (prim_at_most name arity_max n_args))
        else pure tt
    fn ← mprim_fn_of op
    v ← call_prim fn args
    set_expr v
    set_mode apply_mode

  unfoldable pub apply_procedure : Mobj → Mobj → Cmd (Unit {0})
  apply_procedure op args =
      if mclosurep op
      then apply_closure op args
      else mprimp op >>= λ is_prim.
          if is_prim
          then apply_prim op args
          else mkontp op >>= λ is_kont.
              if is_kont then merror kont_invocation else merror not_a_procedure

  -- KONT_APP: the value joins `evald`; the next argument is evaluated, or the operator is applied.
  unfoldable pub apply_app : Mobj → Cmd (Unit {0})
  apply_app k = do
    unev ← mtyped_obj_ref k 3
    evald ← mtyped_obj_ref k 4
    parent ← mtyped_obj_ref k 1
    saved_env ← mtyped_obj_ref k 2
    r ← get
    evald' ← mcons r.eval_expr evald
    if mpairp unev
        then (do
          next_expr ← mcar unev
          rest_unev ← mcdr unev
          mtyped_obj_set r.eval_kont 3 rest_unev
          mtyped_obj_set r.eval_kont 4 evald'
          set_env saved_env
          set_expr next_expr
          set_mode eval_mode)
        else (do
          r' ← get
          reversed ← reverse_loop (suc r'.ap) evald' mnull
          op ← mcar reversed
          args ← mcdr reversed
          set_kont parent
          apply_procedure op args)

  unfoldable pub step_apply : Cmd (Unit {0})
  step_apply = do
    r ← get
    let k = r.eval_kont
    kind ← mtyped_obj_ref k 0
    if kind =? kont_halt
        then set_mode halt_mode
        else if kind =? kont_if
        then apply_if k
        else if kind =? kont_seq
        then apply_seq k
        else if kind =? kont_app
        then apply_app k
        else if kind =? kont_define
        then apply_define k
        else if kind =? kont_set
        then apply_set k
        else if kind =? kont_let
        then apply_let k
        else merror (unhandled_kont kind)

  -- One round of the loop of Meval.
  unfoldable pub step : Cmd (Unit {0})
  step r = elim r.mode [ eval_mode ↦ step_eval r | apply_mode ↦ step_apply r | halt_mode ↦ ok tt r ]

  -- `while (eval_mode != HALT_MODE)`, on fuel.
  unfoldable pub eval_loop : ℕ → Cmd Mobj
  eval_loop zero = λ _. out_of_fuel
  eval_loop (suc fuel) =
      let next = λ (_ : Unit {0}). eval_loop fuel in
      λ r. elim r.mode [ halt_mode ↦ ok r.eval_expr r | _ ↦ and_then (step r) next ]

  unfoldable pub meval : ℕ → Mobj → Cmd Mobj
  meval fuel expr = do
    set_expr expr
    set_env mnull
    k ← mkont kont_halt mnull mnull 0
    set_kont k
    set_mode eval_mode
    eval_loop fuel
