-- ===== src/Tests/Runs.antt =====
-- Whole evaluations.
use minim.Base.{◌≡◌, refl, List, [], ◌∷◌, some, codes}
use minim.Object.{Mobj, ◌=?◌, fixnum, mfalse, mnull, sign_extend}
use minim.Runtime.{
  Cmd, fault, ◌>>=◌, ◌>>◌, pure, PrimFn, get, mcar, mcdr, mset_cdr, typed_slots, mtyped_obj_ref,
  mtyped_obj_set, menvp, mvectorp, mstringp, mclosure_slots, mclosure_set_name, mprimp, mkontp,
}
use minim.Alloc.{
  mcons, typed_alloc, mkont, mclosure, mvector, menv_extend, mkont_if, mkont_seq, mkont_app,
  mkont_set, mkont_define, mkont_let,
}
use minim.Symbol.{mintern, symbol_init}
use minim.Eval.Env.{
  list_length, list_length_loop, top_env_find, top_env_lookup, top_env_set, top_env_define,
  set_top_level_env, rib_index, env_find, env_lookup, env_set,
}
use minim.Eval.Step.{
  is_self_evaluating, eval_literal, eval_symbol, eval_quote, eval_if, eval_begin, eval_lambda,
  check_params, eval_define, eval_set, eval_let, check_bindings, enter_body, head_init,
  eval_application, eval_compound, step_eval,
}
use minim.Eval.Apply.{
  apply_if, apply_seq, reverse_loop, fill_rib, apply_closure, apply_define, apply_set, count_pairs,
  fill_evald, let_enter, let_next, apply_let, apply_prim, apply_procedure, apply_app, step_apply,
  step, eval_loop, meval, mfixnum_val, mprim_fn_of,
}
use minim.Tests.{blank, result}

-- No primitive is registered in these runs.
no_prims : PrimFn → Mobj → Cmd Mobj
no_prims f v r = fault

list_of : List Mobj → Cmd Mobj
list_of [] = pure mnull
list_of (x ∷ xs) = do tail ← list_of xs; mcons x tail

-- What a run of the evaluator computes with.
machine : Unit {0}
unfolding mintern list_of typed_alloc mkont mcons mclosure mvector menv_extend mkont_if mkont_seq
    mkont_app mkont_set mkont_define mkont_let symbol_init mcar mcdr mset_cdr typed_slots
    mtyped_obj_ref mtyped_obj_set menvp mvectorp mstringp mclosure_slots mclosure_set_name mprimp
    mkontp list_length list_length_loop top_env_find top_env_lookup top_env_set top_env_define
    set_top_level_env rib_index env_find env_lookup env_set is_self_evaluating eval_literal
    eval_symbol eval_quote eval_if eval_begin eval_lambda check_params eval_define eval_set eval_let
    check_bindings enter_body head_init eval_application eval_compound step_eval apply_if apply_seq
    reverse_loop fill_rib apply_closure apply_define apply_set count_pairs fill_evald let_enter
    let_next apply_let apply_prim apply_procedure apply_app step_apply step eval_loop meval
    mfixnum_val mprim_fn_of no_prims ◌=?◌ sign_extend
machine = tt

-- ((lambda (x) (if (begin 1 #f) 10 20) x) 7)
run_closure : Cmd Mobj
run_closure = do
  symbol_init
  r ← get
  x ← mintern (codes "x")
  inner ← list_of (r.begin_sym ∷ fixnum 1 ∷ mfalse ∷ [])
  e ← list_of (r.if_sym ∷ inner ∷ fixnum 10 ∷ fixnum 20 ∷ [])
  params ← list_of (x ∷ [])
  lam ← list_of (r.lambda_sym ∷ params ∷ e ∷ x ∷ [])
  call ← list_of (lam ∷ fixnum 7 ∷ [])
  meval no_prims 100 call

result-run_closure : result (run_closure blank) ≡ some (fixnum 7)
unfolding run_closure machine
result-run_closure = refl

-- (let ((x 1) (y 2)) (set! x y) x)
run_let : Cmd Mobj
run_let = do
  symbol_init
  r ← get
  x ← mintern (codes "x")
  y ← mintern (codes "y")
  b1 ← list_of (x ∷ fixnum 1 ∷ [])
  b2 ← list_of (y ∷ fixnum 2 ∷ [])
  bindings ← list_of (b1 ∷ b2 ∷ [])
  change ← list_of (r.set_sym ∷ x ∷ y ∷ [])
  e ← list_of (r.let_sym ∷ bindings ∷ change ∷ x ∷ [])
  meval no_prims 100 e

result-run_let : result (run_let blank) ≡ some (fixnum 2)
unfolding run_let machine
result-run_let = refl

-- (begin . 5): the tail is no list, and its cdr is read.
run_dotted_begin : Cmd Mobj
run_dotted_begin = do symbol_init; r ← get; e ← mcons r.begin_sym (fixnum 5); meval no_prims 100 e

dotted_begin_faults : run_dotted_begin blank ≡ fault
unfolding run_dotted_begin machine
dotted_begin_faults = refl
