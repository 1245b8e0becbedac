-- ===== src/Eval/Refinement.antt =====
-- src/eval.c: the machine on the forms of Eval/Reference.
use mathlib.Core.Path.{subst}
use minim.Base.{◌≤◌, ◌<◌, ◌≡◌, refl, sym, ◌∙◌, ap, some, none, true, false, List, [], ◌∷◌, arith}
use minim.Object.{Addr, Mobj, typed, symbol, mnullp, slots, kont}
use minim.Runtime.{Runtime, Cmd, PrimFn, ok, error, unbound_variable, eval_mode, apply_mode}
use minim.Runtime.Laws.{IsFresh}
use minim.Alloc.{kont_seq}
use minim.Eval.Step.{is_self_evaluating, eval_begin}
use minim.Eval.Apply.{step}
use minim.Eval.Env.{env_lookup}
use minim.Eval.Env.Assoc.{TopEnv, assoc}
use minim.Eval.Env.Lexical.{Env, ribs_get, env_lookup_lem}
use minim.Eval.Frames.{Extends, Extends-refl, Extends-trans}
use minim.Eval.Reference.{
  Evals, EvalsSeq, literal, lexical_var, top_var, quoted, conditional, sequence, last, more,
}
use minim.Eval.Rounds.{
  IsDistinct, step_literal, step_symbol, step_quote, step_if, step_begin, eval_quote-Chain,
  eval_if-Chain, eval_begin-last, eval_begin-more,
}
use minim.Eval.Returns.{
  Reaches, Returns, Resumes, round, done, eval_no_halt, after_round, after_rounds,
  immediate-Returns, finish, object_kept, after_test, after_last, after_part,
}
use minim.Eval.Scope.{
  Chain-Keeps, Extends-IsFresh, Extends-Keeps, Env-Extends, TopEnv-Extends, IsDistinct-Extends,
  literal-Extends,
}

EvalsSeq-pair :
    {r : Runtime} {ribs : List (List Mobj)} {xs : List (Mobj × Mobj)} {rest v : Mobj}
    → EvalsSeq r ribs xs rest v
    → mnullp rest ≡ false
EvalsSeq-pair (last h e) = refl
EvalsSeq-pair (more h e es) = refl

module _ (call_prim : PrimFn → Mobj → Cmd Mobj) {r : Runtime} {ribs : List (List Mobj)}
    {xs : List (Mobj × Mobj)} {ev : Mobj} (fresh : IsFresh r) (distinct : IsDistinct r)
    (lexical : Env r r.ap ev ribs) (top : TopEnv r r.ap r.top_level_env xs) where
  looked_up :
      (s : Runtime) (sym : Mobj)
      → Extends r s
      → s.eval_env ≡ ev
      → env_lookup s.eval_env sym s ≡ (elim (ribs_get sym ribs) [
        | some u ↦ ok u s
        | none ↦ elim (assoc sym xs) [ some u ↦ ok u s | none ↦ error (unbound_variable sym) s ]
      ])
  looked_up s sym x env =
      ap (λ y. env_lookup y sym s) env
      ∙ env_lookup_lem (Env-Extends r s fresh x lexical) (TopEnv-Extends r s fresh x top) sym

  mutual
    run :
        {e v : Mobj}
        → Evals r ribs xs e v
        → (s : Runtime) → Extends r s
        → s.mode ≡ eval_mode
        → s.eval_expr ≡ e
        → s.eval_env ≡ ev
        → (u : Runtime) × Returns call_prim s s s.eval_kont v u
    run (literal {e = v} h n) s x m e env =
        let h' =
          subst (λ y. is_self_evaluating y s ≡ ok true s) (sym e)
            (literal-Extends r s fresh x v h) in
        let n' = subst (λ y. mnullp y ≡ false) (sym e) n in
        let now =
          immediate-Returns call_prim s s.eval_expr (Extends-IsFresh r s x) m
            (step_literal call_prim s m h' n') in
        subst (λ y. (u : Runtime) × Returns call_prim s s s.eval_kont y u) e now
    run (lexical_var {p = p} {v = v} h) s x m e env =
        immediate-Returns call_prim s v (Extends-IsFresh r s x) m
          (step_symbol call_prim s m e (looked_up s (symbol p) x env ∙ rw h refl))
    run (top_var {p = p} {v = v} h h') s x m e env =
        immediate-Returns call_prim s v (Extends-IsFresh r s x) m
          (step_symbol call_prim s m e (looked_up s (symbol p) x env ∙ rw (h, h') refl))
    run (quoted {v = v} h c) s x m e env =
        let keeps = Extends-Keeps r s fresh x in
        let (same, n, f, t, q, i, b) = x in
        let fresh' = Extends-IsFresh r s x in
        immediate-Returns call_prim s v fresh' m (
          step_quote call_prim s m e (keeps _ _ h) (sym q)
          ∙ eval_quote-Chain s fresh' (Chain-Keeps s keeps c))
    run (conditional {then_e = then_e} {else_e = else_e} h c test branch) s x m e env =
        let keeps = Extends-Keeps r s fresh x in
        let (same, n, f, t, q, i, b) = x in
        let fresh' = Extends-IsFresh r s x in
        let (u, made, pushed) = eval_if-Chain s fresh' (Chain-Keeps s keeps c) in
        let (a, tested) =
          run test (record u { eval_kont = typed s.ap }) (Extends-trans r s u x pushed.above)
            (pushed.mode ∙ m) pushed.expr (pushed.env ∙ env) in
        let to_a = Extends-trans s u a pushed.above tested.keeps in
        let (t', resumed) =
          after_test call_prim {b = s} {s = a} to_a tested.mode tested.expr tested.kont
            (object_kept u a tested.keeps pushed.used pushed.frame) in
        after_round call_prim (eval_no_halt m)
          (step_if call_prim s m e (keeps _ _ h) (IsDistinct-Extends r s fresh x distinct) (sym i)
            ∙ made)
          (after_rounds call_prim tested.reaches (
            finish call_prim resumed (
              run branch t' (Extends-trans r s t' x resumed.keeps) resumed.mode resumed.expr
                (resumed.env ∙ env))))
    run (sequence h es) s x m e env =
        let keeps = Extends-Keeps r s fresh x in
        let (same, n, f, t, q, i, b) = x in
        begin es s x m env (
          step_begin call_prim s m e (keeps _ _ h) (IsDistinct-Extends r s fresh x distinct)
            (sym b))

    begin :
        {body v : Mobj}
        → EvalsSeq r ribs xs body v
        → (s : Runtime) → Extends r s
        → s.mode ≡ eval_mode
        → s.eval_env ≡ ev
        → step call_prim s ≡ eval_begin body s
        → (u : Runtime) × Returns call_prim s s s.eval_kont v u
    begin (last {e = e} h d) s x m env h' =
        let keeps = Extends-Keeps r s fresh x in
        let only : Resumes call_prim s s s.eval_kont s.eval_env e (record s { eval_expr = e }) =
          record {
            reaches =
                round (eval_no_halt m)
                  (h' ∙ eval_begin-last s (Extends-IsFresh r s x) (keeps _ _ h)) done;
            keeps = Extends-refl s (Extends-IsFresh r s x);
            mode = m;
            expr = refl;
            env = refl;
            kont = refl;
          } in
        finish call_prim only (run d (record s { eval_expr = e }) x m refl env)
    begin (more {e = e} h d es) s x m env h' =
        let keeps = Extends-Keeps r s fresh x in
        let (u, made, pushed) =
          eval_begin-more s (Extends-IsFresh r s x) (keeps _ _ h) (EvalsSeq-pair es) in
        let (a, first) =
          run d (record u { eval_kont = typed s.ap }) (Extends-trans r s u x pushed.above)
            (pushed.mode ∙ m) pushed.expr (pushed.env ∙ env) in
        after_round call_prim (eval_no_halt m) (h' ∙ made) (
          after_rounds call_prim first.reaches (
            run-rest es s a s.ap s.eval_kont s.eval_env x
              (Extends-trans s u a pushed.above first.keeps) (omega arith)
              (omega (arith, pushed.used, first.keeps.1)) first.mode first.kont
              (object_kept u a first.keeps pushed.used pushed.frame) env))

    run-rest :
        {rest v : Mobj}
        → EvalsSeq r ribs xs rest v
        → (b s : Runtime) (f : Addr) (parent saved : Mobj) → Extends r b
        → Extends b s
        → b.ap ≤ f
        → f < s.ap
        → s.mode ≡ apply_mode
        → s.eval_kont ≡ typed f
        → s.heap f ≡ some (slots kont (kont_seq ∷ parent ∷ saved ∷ rest ∷ []))
        → saved ≡ ev
        → (u : Runtime) × Returns call_prim b s parent v u
    run-rest (last h d) b s f parent saved x y le lt m k frame env =
        let (t, resumed) =
          after_last call_prim {b = b} {s = s} y m k frame
            (Extends-Keeps r s fresh (Extends-trans r b s x y) _ _ h) in
        finish call_prim resumed (
          run d t (Extends-trans r b t x resumed.keeps) resumed.mode resumed.expr
            (resumed.env ∙ env))
    run-rest (more h d es) b s f parent saved x y le lt m k frame env =
        let (t, resumed, frame', lt') =
          after_part call_prim {b = b} {s = s} y m k frame
            (Extends-Keeps r s fresh (Extends-trans r b s x y) _ _ h) (EvalsSeq-pair es) le lt in
        let (a, part) =
          run d t (Extends-trans r b t x resumed.keeps) resumed.mode resumed.expr
            (resumed.env ∙ env) in
        after_rounds call_prim resumed.reaches (
          after_rounds call_prim part.reaches (
            run-rest es b a f parent saved x (Extends-trans b t a resumed.keeps part.keeps) le
              (omega (arith, lt', part.keeps.1)) part.mode (part.kont ∙ resumed.kont)
              (object_kept t a part.keeps lt' frame') env))

  -- In a fresh heap with distinct special symbols, in the scope of a chain of ribs and of a top-level
  -- association list: when the reference gives an expression a value, the machine that starts on the
  -- expression, in any later state that keeps the heap, comes after some rounds to hand that value to
  -- the frames that were on the continuation register, with everything that was allocated unchanged.
  pub step-Evals :
      {e v : Mobj}
      → Evals r ribs xs e v
      → (s : Runtime) → Extends r s
      → s.mode ≡ eval_mode
      → s.eval_expr ≡ e
      → s.eval_env ≡ ev
      → (u : Runtime) × Reaches call_prim s u
        × (u.mode ≡ apply_mode)
        × (u.eval_expr ≡ v)
        × (u.eval_kont ≡ s.eval_kont)
        × Extends s u
  step-Evals d s x m e env =
      let (u, k) = run d s x m e env in (u, k.reaches, k.mode, k.expr, k.kont, k.keeps)
