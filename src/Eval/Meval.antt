-- ===== src/Eval/Meval.antt =====
-- src/eval.c: `Meval` on the forms of Eval/Reference.
use minim.Base.{ℕ, zero, suc, ◌≡◌, ◌≢◌, refl, ◌∙◌, ap, List, [], arith}
use minim.Object.{Mobj, mnull, typed}
use minim.Runtime.{Runtime, Cmd, PrimFn, EvalMode, ok, and_then, eval_mode, apply_mode, halt_mode}
use minim.Runtime.Laws.{IsFresh}
use minim.Alloc.{kont_halt}
use minim.Eval.Apply.{step, eval_loop, meval}
use minim.Eval.Env.Assoc.{TopEnv}
use minim.Eval.Env.Lexical.{nil}
use minim.Eval.Frames.{Extends, Extends-trans, mkont-Pushed}
use minim.Eval.Reference.{Evals}
use minim.Eval.Rounds.{IsDistinct, step-kont_halt}
use minim.Eval.Returns.{Reaches, round, done, apply_no_halt, object_kept, Reaches-trans}
use minim.Eval.Refinement.{step-Evals}

module _ (call_prim : PrimFn → Mobj → Cmd Mobj) where
  pub loop_halts :
      (t : Runtime) (fuel : ℕ)
      → t.mode ≡ halt_mode
      → eval_loop call_prim (suc fuel) t ≡ ok t.eval_expr t
  unfolding eval_loop
  loop_halts t fuel m = rw m refl

  pub loop_goes_on :
      (s t : Runtime) (fuel : ℕ)
      → s.mode ≢ halt_mode
      → step call_prim s ≡ ok tt t
      → eval_loop call_prim (suc fuel) s ≡ eval_loop call_prim fuel t
  unfolding eval_loop
  loop_goes_on s t fuel m h = go s.mode m
    where
      go :
          (x : EvalMode)
          → x ≢ halt_mode
          → (elim x [
            | halt_mode ↦ ok s.eval_expr s
            | _ ↦ and_then (step call_prim s) (λ _. eval_loop call_prim fuel)
          ])
            ≡ eval_loop call_prim fuel t
      go eval_mode n = rw h refl
      go apply_mode n = rw h refl
      go halt_mode n = absurd (n refl)

  -- The loop ends where the rounds come to the halt.
  eval_loop-Reaches :
      {s t : Runtime}
      → Reaches call_prim s t
      → t.mode ≡ halt_mode
      → (fuel : ℕ) × (eval_loop call_prim fuel s ≡ ok t.eval_expr t)
  eval_loop-Reaches {t = t} done m = (suc zero, loop_halts t zero m)
  eval_loop-Reaches {s = s} (round {t = t} m h rest) halted =
      let (fuel, ended) = eval_loop-Reaches rest halted in
      (suc fuel, loop_goes_on s t fuel m h ∙ ended)

  -- In a fresh heap with distinct special symbols and an association list at the top level: when the
  -- reference gives an expression a value with no lexical binding in scope, Meval of the expression
  -- ends on some fuel with that value, and everything that was allocated is unchanged.
  pub meval-Evals :
      (r : Runtime) {xs : List (Mobj × Mobj)} {e v : Mobj}
      → IsFresh r
      → IsDistinct r
      → TopEnv r r.ap r.top_level_env xs
      → Evals r [] xs e v
      → (fuel : ℕ) × (t : Runtime) × (meval call_prim fuel e r ≡ ok v t) × Extends r t
  unfolding meval
  meval-Evals r {e = e} {v = v} fresh distinct top d =
      let s = record r { eval_expr = e; eval_env = mnull } in
      let (u, made, pushed) =
        mkont-Pushed s (record { unused = fresh.unused }) mnull mnull kont_halt 0 (omega arith) in
      let start = record u { eval_kont = typed r.ap; mode = eval_mode } in
      let (a, reaches, applies, value, waiting, keeps) =
        step-Evals call_prim fresh distinct nil top d start pushed.above refl pushed.expr
          pushed.env in
      let ends =
        step-kont_halt call_prim a applies waiting
          (object_kept u a keeps pushed.used pushed.frame) in
      let (fuel, result) =
        eval_loop-Reaches
          (Reaches-trans call_prim reaches (round (apply_no_halt applies) ends done)) refl in
      (
        fuel,
        record a { mode = halt_mode },
        rw made (result ∙ ap (λ x. ok x (record a { mode = halt_mode })) value),
        Extends-trans r u a pushed.above keeps,
      )
