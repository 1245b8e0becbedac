-- ===== src/Tests/Forms.antt =====
-- The theorems on the evaluator at the program (if x (begin 1 (quote x)) 2), where x is 5.
use minim.Base.{false, ◌&&◌, ℕ, ◌≡◌, refl, arith, List, [], ◌∷◌, if◌then◌else◌}
use minim.Object.{Addr, Mobj, fixnum, mnull, mnullp, pair, symbol, name, Object, cons_cell, ◌=?◌}
use minim.Runtime.{
  Runtime, Cmd, PrimFn, ok, error, fault, improper_list, eval_mode, apply_mode, write,
}
use minim.Runtime.Laws.{IsFresh}
use minim.Eval.Env.{list_length}
use minim.Eval.Env.Assoc
use minim.Eval.Env.Assoc.{TopEnv, assoc}
use minim.Eval.Env.Lexical
use minim.Eval.Env.Lexical.{ribs_get}
use minim.Eval.Env.ProperList.{Chain, cell, stop, list_length-Chain}
use minim.Eval.Step.{is_self_evaluating}
use minim.Eval.Apply.{meval}
use minim.Eval.Frames.{Extends}
use minim.Eval.Reference
use minim.Eval.Reference.{Evals}
use minim.Eval.Rounds.{IsDistinct}
use minim.Eval.Returns.{Reaches}
use minim.Eval.Refinement.{step-Evals}
use minim.Eval.Meval.{meval-Evals}
use minim.Eval.Malformed.{quote_form, fits, malformed, eval_form, eval_form-malformed}
use minim.Tests.{blank}

abbrev cells : List (Addr × Object)
cells =
    (0, name [])
    ∷ (16, name (1 ∷ []))
    ∷ (32, name (2 ∷ []))
    ∷ (48, name (120 ∷ []))
    ∷ (64, cons_cell (symbol 0) (pair 80))
    ∷ (80, cons_cell (symbol 48) mnull)
    ∷ (96, cons_cell (symbol 32) (pair 112))
    ∷ (112, cons_cell (fixnum 1) (pair 128))
    ∷ (128, cons_cell (pair 64) mnull)
    ∷ (144, cons_cell (symbol 16) (pair 160))
    ∷ (160, cons_cell (symbol 48) (pair 176))
    ∷ (176, cons_cell (pair 96) (pair 192))
    ∷ (192, cons_cell (fixnum 2) mnull)
    ∷ (208, cons_cell (symbol 48) (fixnum 5))
    ∷ (224, cons_cell (pair 208) mnull)
    ∷ []

abbrev written : List (Addr × Object) → Runtime → Runtime
written [] r = r
written ((p, o) ∷ rest) r = written rest (write r p o)

abbrev program : Runtime
program = record (written cells blank) {
  ap = 240;
  quote_sym = symbol 0;
  if_sym = symbol 16;
  begin_sym = symbol 32;
  top_level_env = pair 224;
}

program-IsFresh : IsFresh program
program-IsFresh = record { unused = λ p h. ground arith }

program-IsDistinct : IsDistinct program
unfolding ◌=?◌
program-IsDistinct = record { if_quote = refl; begin_quote = refl; begin_if = refl }

program-TopEnv : TopEnv program 240 (pair 224) ((symbol 48, fixnum 5) ∷ [])
program-TopEnv = Assoc.cons refl refl (omega arith) (omega arith) Assoc.nil

arguments : Chain program (pair 160) (symbol 48 ∷ pair 96 ∷ fixnum 2 ∷ []) mnull
arguments = cell refl (cell refl (cell refl (stop refl)))

list_length-Chain_example :
    list_length (pair 160) program
    ≡ (if mnullp mnull then ok 3 program else error improper_list program)
list_length-Chain_example = list_length-Chain program-IsFresh arguments

meaning : Evals program [] ((symbol 48, fixnum 5) ∷ []) (pair 144) (symbol 48)
unfolding ◌=?◌ assoc ribs_get is_self_evaluating
meaning = Reference.conditional {c = fixnum 5} refl arguments (Reference.top_var refl refl) (
    Reference.sequence refl (
      Reference.more refl (Reference.literal refl refl)
        (Reference.last refl (Reference.quoted refl (cell refl (stop refl))))))

no_prims : PrimFn → Mobj → Cmd Mobj
no_prims f v r = fault

meval-Evals_example :
    (fuel : ℕ) × (t : Runtime) × (meval no_prims fuel (pair 144) program ≡ ok (symbol 48) t)
    × Extends program t
meval-Evals_example =
    meval-Evals no_prims program program-IsFresh program-IsDistinct program-TopEnv meaning

abbrev started : Runtime
started = record program { eval_expr = pair 144; mode = eval_mode }

started-Extends : Extends program started
started-Extends = (λ a h. refl, omega arith, program-IsFresh.unused, refl, refl, refl, refl)

step-Evals_example :
    (u : Runtime) × Reaches no_prims started u
    × (u.mode ≡ apply_mode)
    × (u.eval_expr ≡ symbol 48)
    × (u.eval_kont ≡ started.eval_kont)
    × Extends started u
step-Evals_example =
    step-Evals no_prims program-IsFresh program-IsDistinct Lexical.nil program-TopEnv meaning
      started started-Extends refl refl refl

three_parts : (mnullp mnull && fits quote_form 3) ≡ false
unfolding fits
three_parts = refl

-- The tail of `if`, taken for that of `quote`.
eval_form-malformed_example :
    eval_form quote_form (pair 160) program
    ≡ error (if mnullp mnull then malformed quote_form else improper_list) program
eval_form-malformed_example =
    eval_form-malformed quote_form program-IsFresh refl arguments three_parts
