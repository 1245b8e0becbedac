-- ===== src/Eval/Step.antt =====
-- src/eval.c, `step_eval`: one function for each arm of the dispatch.
use minim.Base.{ℕ, zero, suc, Bool, true, not, ◌&&◌, ◌||◌, ltb, ◌==◌, if◌then◌else◌}
use minim.Object.{
  Mobj, mfalse, mnull, ◌=?◌, mpairp, mnullp, mfixnump, mflonump, mimmediatep, msymbolp,
}
use minim.Runtime.{
  Cmd, out_of_fuel, pure, get, merror, raise_if, ◌>>=◌, ◌>>◌, mcar, mcdr, mvectorp, mstringp, menvp,
  set_mode, set_expr, set_kont, apply_mode, empty_list, malformed_quote, malformed_if, empty_begin,
  malformed_lambda, lambda_params, lambda_param_name, internal_define, malformed_define,
  define_name, malformed_set, set_name, malformed_let, let_bindings, let_binding, let_binding_name,
  cannot_evaluate,
}
use minim.Alloc.{mclosure, mkont_if, mkont_seq, mkont_app, mkont_set, mkont_define, mkont_let}
use minim.Eval.Env.{list_length, env_lookup}

unfoldable pub is_self_evaluating : Mobj → Cmd Bool
is_self_evaluating v =
    if mfixnump v || mflonump v || mimmediatep v
    then pure true
    else mvectorp v >>= λ vec. if vec then pure true else mstringp v

-- A literal is its own value; `()` is an error.
unfoldable pub eval_literal : Mobj → Cmd (Unit {0})
eval_literal expr = raise_if (mnullp expr) empty_list >> set_mode apply_mode

unfoldable pub eval_symbol : Mobj → Cmd (Unit {0})
eval_symbol expr = do r ← get; v ← env_lookup r.eval_env expr; set_expr v; set_mode apply_mode

unfoldable pub eval_quote : Mobj → Cmd (Unit {0})
eval_quote rest = do
  n ← list_length rest
  raise_if (not (n == 1)) malformed_quote
  datum ← mcar rest
  set_expr datum
  set_mode apply_mode

unfoldable pub eval_if : Mobj → Cmd (Unit {0})
eval_if rest = do
  n ← list_length rest
  raise_if (not (n == 3)) malformed_if
  branches ← mcdr rest
  then_e ← mcar branches
  last ← mcdr branches
  else_e ← mcar last
  test ← mcar rest
  set_expr test
  r ← get
  k ← mkont_if r.eval_kont r.eval_env then_e else_e
  set_kont k

-- Of one expression the value is the value of the whole, with no frame.
unfoldable pub eval_begin : Mobj → Cmd (Unit {0})
eval_begin rest = do
  raise_if (mnullp rest) empty_begin
  more ← mcdr rest
  first ← mcar rest
  set_expr first
  if mnullp more then pure tt else do r ← get; k ← mkont_seq r.eval_kont r.eval_env more; set_kont k

-- `for (p = params; Mpairp(p); p = Mcdr(p))`: each name is a symbol.
unfoldable pub check_params : ℕ → Mobj → Cmd (Unit {0})
check_params zero p = λ _. out_of_fuel
check_params (suc fuel) p =
    let next = λ (tail : Mobj). check_params fuel tail in
    if mpairp p
    then (do name ← mcar p; raise_if (not (msymbolp name)) lambda_param_name; mcdr p >>= next)
    else pure tt

unfoldable pub eval_lambda : Mobj → Cmd (Unit {0})
eval_lambda rest = do
  n ← list_length rest
  raise_if (ltb n 2) malformed_lambda
  params ← mcar rest
  body ← mcdr rest
  raise_if (not (mnullp params) && not (mpairp params)) lambda_params
  r ← get
  check_params (suc r.ap) params
  v ← mclosure params body r.eval_env mfalse
  set_expr v
  set_mode apply_mode

unfoldable pub eval_define : Mobj → Cmd (Unit {0})
eval_define rest = do
  r ← get
  inner ← menvp r.eval_env
  raise_if inner internal_define
  n ← list_length rest
  raise_if (not (n == 2)) malformed_define
  name ← mcar rest
  raise_if (not (msymbolp name)) define_name
  tail ← mcdr rest
  value ← mcar tail
  set_expr value
  k ← mkont_define r.eval_kont r.eval_env name
  set_kont k

unfoldable pub eval_set : Mobj → Cmd (Unit {0})
eval_set rest = do
  n ← list_length rest
  raise_if (not (n == 2)) malformed_set
  name ← mcar rest
  raise_if (not (msymbolp name)) set_name
  tail ← mcdr rest
  value ← mcar tail
  set_expr value
  r ← get
  k ← mkont_set r.eval_kont r.eval_env name
  set_kont k

-- `for (b = bindings; Mpairp(b); b = Mcdr(b))`: each binding is `(var init)`.
unfoldable pub check_bindings : ℕ → Mobj → Cmd (Unit {0})
check_bindings zero b = λ _. out_of_fuel
check_bindings (suc fuel) b =
    let next = λ (tail : Mobj). check_bindings fuel tail in
    if mpairp b
    then (do
      binding ← mcar b
      n ← list_length binding
      raise_if (not (n == 2)) let_binding
      name ← mcar binding
      raise_if (not (msymbolp name)) let_binding_name
      mcdr b >>= next)
    else pure tt

-- Run a body as implicit `begin` in `env`: the frame for what follows the first expression.
unfoldable pub enter_body : Mobj → Cmd (Unit {0})
enter_body body = do
  first ← mcar body
  set_expr first
  more ← mcdr body
  if mpairp more
      then (do r ← get; k ← mkont_seq r.eval_kont r.eval_env more; set_kont k)
      else pure tt

-- `Mcar(Mcdr(Mcar(bindings)))`: the init of the binding at the head.
unfoldable pub head_init : Mobj → Cmd Mobj
head_init bindings = do binding ← mcar bindings; tail ← mcdr binding; mcar tail

unfoldable pub eval_let : Mobj → Cmd (Unit {0})
eval_let rest = do
  n ← list_length rest
  raise_if (ltb n 2) malformed_let
  bindings ← mcar rest
  body ← mcdr rest
  raise_if (not (mnullp bindings) && not (mpairp bindings)) let_bindings
  r ← get
  check_bindings (suc r.ap) bindings
  if mnullp bindings then enter_body body else do
    init ← head_init bindings
    set_expr init
    k ← mkont_let r.eval_kont r.eval_env bindings mnull body
    set_kont k

unfoldable pub eval_application : Mobj → Cmd (Unit {0})
eval_application expr = do
  args ← mcdr expr
  op ← mcar expr
  set_expr op
  r ← get
  k ← mkont_app r.eval_kont r.eval_env args mnull
  set_kont k

-- The head decides: a special form by its symbol, or else an application.
unfoldable pub eval_compound : Mobj → Cmd (Unit {0})
eval_compound expr = do
  head ← mcar expr
  rest ← mcdr expr
  r ← get
  if head =? r.quote_sym
      then eval_quote rest
      else if head =? r.if_sym
      then eval_if rest
      else if head =? r.begin_sym
      then eval_begin rest
      else if head =? r.lambda_sym
      then eval_lambda rest
      else if head =? r.define_sym
      then eval_define rest
      else if head =? r.set_sym
      then eval_set rest
      else if head =? r.let_sym
      then eval_let rest
      else eval_application expr

unfoldable pub step_eval : Cmd (Unit {0})
step_eval = do
  r ← get
  let expr = r.eval_expr
  literal ← is_self_evaluating expr
  if literal
      then eval_literal expr
      else if msymbolp expr
      then eval_symbol expr
      else if mpairp expr
      then eval_compound expr
      else merror cannot_evaluate
