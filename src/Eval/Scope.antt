-- ===== src/Eval/Scope.antt =====
-- src/eval.c: the scope of an evaluation, in a heap that grows.
use mathlib.Core.Path.{subst}
use minim.Base.{◌≡◌, sym, true, List, arith, Option-cases, inl, inr}
use minim.Object.{Mobj, typed}
use minim.Runtime.{Runtime, ok, mvectorp, mstringp, has_secondary}
use minim.Runtime.Laws.{IsFresh, Keeps}
use minim.Eval.Step.{is_self_evaluating}
use minim.Eval.Env.TopLevel.{TopEnv-frame}
use minim.Eval.Env.Assoc.{TopEnv, TopEnv-mono}
use minim.Eval.Env.Lexical.{Env, Env-frame, Env-mono}
use minim.Eval.Env.ProperList.{Chain, stop, cell}
use minim.Eval.Frames.{Extends}
use minim.Eval.Rounds.{IsDistinct}

pub Chain-Keeps :
    {r : Runtime} (s : Runtime) {v e : Mobj} {xs : List Mobj}
    → Keeps r s
    → Chain r v xs e
    → Chain s v xs e
Chain-Keeps s k (stop h) = stop h
Chain-Keeps s k (cell {p = p} h c) = cell (k p _ h) (Chain-Keeps s k c)

pub Extends-IsFresh : (r s : Runtime) → Extends r s → IsFresh s
Extends-IsFresh r s (h, n, f, top, q, i, b) = record { unused = f }

module _ (r s : Runtime) (fresh : IsFresh r) (ext : Extends r s) where
  pub Extends-Keeps : Keeps r s
  Extends-Keeps p o e = let (h, n, f, top, q, i, b) = ext in ground (arith, h p, fresh.unused p)

  pub Env-Extends : {v : Mobj} {ribs : List (List Mobj)} → Env r r.ap v ribs → Env s s.ap v ribs
  Env-Extends t = let (h, n, f, top, q, i, b) = ext in Env-mono (Env-frame s t h) n

  pub TopEnv-Extends :
      {xs : List (Mobj × Mobj)}
      → TopEnv r r.ap r.top_level_env xs
      → TopEnv s s.ap s.top_level_env xs
  TopEnv-Extends {xs} t =
      let (h, n, f, top, q, i, b) = ext in
      subst (λ v. TopEnv s s.ap v xs) (sym top) (TopEnv-mono (TopEnv-frame s t h) n)

  pub IsDistinct-Extends : IsDistinct r → IsDistinct s
  IsDistinct-Extends d =
      let (h, n, f, top, q, i, b) = ext in
      record {
        if_quote = rw (i, q) (d.if_quote);
        begin_quote = rw (b, q) (d.begin_quote);
        begin_if = rw (b, i) (d.begin_if);
      }

  pub literal-Extends :
      (e : Mobj) → is_self_evaluating e r ≡ ok true r → is_self_evaluating e s ≡ ok true s
  unfolding is_self_evaluating mvectorp mstringp has_secondary
  literal-Extends (typed p) h = elim (Option-cases (r.heap p)) [
    | inl free ↦ absurd (ground arith)
    | inr (o, used) ↦ ground (arith, Extends-Keeps p o used)
  ]
  literal-Extends e h = ground arith
