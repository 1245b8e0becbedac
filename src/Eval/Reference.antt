-- ===== src/Eval/Reference.antt =====
-- What src/eval.c means on the forms that have no effect: literals, variables, `quote`, `if` and
-- `begin`. The relation reads the expression in a heap, and knows no registers and no frames.
use minim.Base.{◌≡◌, true, false, none, some, List, [], ◌∷◌, if◌then◌else◌}
use minim.Object.{Addr, Mobj, mnull, pair, symbol, mnullp, mfalsep, cons_cell}
use minim.Runtime.{Runtime, ok}
use minim.Eval.Step.{is_self_evaluating}
use minim.Eval.Env.Assoc.{assoc}
use minim.Eval.Env.Lexical.{ribs_get}
use minim.Eval.Env.ProperList.{Chain}

mutual
  -- `Evals r ribs xs e v`: in the scope of these ribs and this top level, `e` has the value `v`.
  pub data Evals (r : Runtime) (ribs : List (List Mobj)) (xs : List (Mobj × Mobj))
      : Mobj → Mobj → Type 0 where
    literal :
        {e : Mobj} → is_self_evaluating e r ≡ ok true r → mnullp e ≡ false → Evals r ribs xs e e
    lexical_var :
        {p : Addr} {v : Mobj} → ribs_get (symbol p) ribs ≡ some v → Evals r ribs xs (symbol p) v
    top_var :
        {p : Addr} {v : Mobj}
        → ribs_get (symbol p) ribs ≡ none
        → assoc (symbol p) xs ≡ some v
        → Evals r ribs xs (symbol p) v
    quoted :
        {p : Addr} {args v : Mobj}
        → r.heap p ≡ some (cons_cell r.quote_sym args)
        → Chain r args (v ∷ []) mnull
        → Evals r ribs xs (pair p) v
    conditional :
        {p : Addr} {args test then_e else_e c v : Mobj}
        → r.heap p ≡ some (cons_cell r.if_sym args)
        → Chain r args (test ∷ then_e ∷ else_e ∷ []) mnull
        → Evals r ribs xs test c
        → Evals r ribs xs (if mfalsep c then else_e else then_e) v
        → Evals r ribs xs (pair p) v
    sequence :
        {p : Addr} {body v : Mobj}
        → r.heap p ≡ some (cons_cell r.begin_sym body)
        → EvalsSeq r ribs xs body v
        → Evals r ribs xs (pair p) v

  -- The value of the last expression of a list.
  pub data EvalsSeq (r : Runtime) (ribs : List (List Mobj)) (xs : List (Mobj × Mobj))
      : Mobj → Mobj → Type 0 where
    last :
        {p : Addr} {e v : Mobj}
        → r.heap p ≡ some (cons_cell e mnull)
        → Evals r ribs xs e v
        → EvalsSeq r ribs xs (pair p) v
    more :
        {p : Addr} {e rest u v : Mobj}
        → r.heap p ≡ some (cons_cell e rest)
        → Evals r ribs xs e u
        → EvalsSeq r ribs xs rest v
        → EvalsSeq r ribs xs (pair p) v
