-- ===== src/Tests/Calls.antt =====
-- The theorems on calls at the closure of (lambda (x) x) in the scope where y is 7.
use minim.Base.{◌≡◌, refl, arith, [], ◌∷◌}
use minim.Object.{fixnum, mfalse, mnull, pair, closure, typed, lambda, cons_cell}
use minim.Runtime.{Runtime, ok, error, closure_arity, eval_mode, write}
use minim.Runtime.Laws.{IsFresh}
use minim.Eval.Env.Lexical
use minim.Eval.Env.Lexical.{Env}
use minim.Eval.Env.ProperList.{Chain, cell, stop}
use minim.Eval.Apply.{apply_closure}
use minim.Eval.Frames.{Extends}
use minim.Eval.Closure.{interleave}
use minim.Eval.Call.{apply_closure-arity, apply_closure-Env}
use minim.Tests.{scope, x_sym, y_sym}

abbrev calls : Runtime
calls =
    let a = write scope 128 (lambda (pair 160) (pair 176) (typed 96) mfalse) in
    let b = write a 160 (cons_cell x_sym mnull) in
    let c = write b 176 (cons_cell x_sym mnull) in
    let d = write c 192 (cons_cell (fixnum 8) mnull) in
    let e = write d 208 (cons_cell (fixnum 9) (pair 192)) in record e { ap = 224 }

calls-IsFresh : IsFresh calls
calls-IsFresh = record { unused = λ p h. ground arith }

formal : Chain calls (pair 160) (x_sym ∷ []) mnull
formal = cell refl (stop refl)

one_actual : Chain calls (pair 192) (fixnum 8 ∷ []) mnull
one_actual = cell refl (stop refl)

two_actual : Chain calls (pair 208) (fixnum 9 ∷ fixnum 8 ∷ []) mnull
two_actual = cell refl (cell refl (stop refl))

calls-Env : Env calls 224 (typed 96) ((y_sym ∷ fixnum 7 ∷ []) ∷ [])
calls-Env = Lexical.frame refl refl tt (omega arith) (omega arith) Lexical.nil

apply_closure-arity_example :
    apply_closure (closure 128) (pair 208) calls ≡ error (closure_arity 1 2) calls
apply_closure-arity_example = apply_closure-arity calls-IsFresh refl formal two_actual (omega arith)

apply_closure-Env_example :
    (u : Runtime) × (apply_closure (closure 128) (pair 192) calls ≡ ok tt u)
    × (u.mode ≡ eval_mode)
    × (u.eval_expr ≡ x_sym)
    × (u.eval_kont ≡ calls.eval_kont)
    × Env u u.ap u.eval_env (interleave (x_sym ∷ []) (fixnum 8 ∷ []) ∷ (y_sym ∷ fixnum 7 ∷ []) ∷ [])
    × Extends calls u
apply_closure-Env_example =
    apply_closure-Env calls-IsFresh refl formal one_actual refl (omega arith) refl calls-Env
