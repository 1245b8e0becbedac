-- ===== src/Eval/Malformed.antt =====
-- src/eval.c: what the special forms answer to a tail of the wrong shape.
use minim.Base.{
  ℕ, ◌≡◌, refl, Bool, false, not, ◌&&◌, ltb, ◌==◌, inl, inr, List, Bool-cases, arith, length,
  if◌then◌else◌,
}
use minim.Object.{Mobj, mnull, mnullp}
use minim.Runtime.{
  Runtime, Cmd, Error, ◌>>=◌, ok, error, menvp, has_secondary, improper_list, malformed_quote,
  malformed_if, malformed_lambda, malformed_define, malformed_set, malformed_let,
}
use minim.Runtime.Laws.{IsFresh}
use minim.Eval.Env.{list_length}
use minim.Eval.Env.ProperList.{Chain, list_length-Chain}
use minim.Eval.Step.{eval_quote, eval_if, eval_lambda, eval_define, eval_set, eval_let}

-- The forms that check the number of their parts.
pub data Form : Type 0 where
  quote_form if_form lambda_form define_form set_form let_form : Form

-- Whether a form may have so many parts.
unfoldable pub fits : Form → ℕ → Bool
fits quote_form n = n == 1
fits if_form n = n == 3
fits lambda_form n = not (ltb n 2)
fits define_form n = n == 2
fits set_form n = n == 2
fits let_form n = not (ltb n 2)

unfoldable pub malformed : Form → Error
malformed quote_form = malformed_quote
malformed if_form = malformed_if
malformed lambda_form = malformed_lambda
malformed define_form = malformed_define
malformed set_form = malformed_set
malformed let_form = malformed_let

-- The arm of step_eval for a form.
unfoldable pub eval_form : Form → Mobj → Cmd (Unit {0})
eval_form quote_form = eval_quote
eval_form if_form = eval_if
eval_form lambda_form = eval_lambda
eval_form define_form = eval_define
eval_form set_form = eval_set
eval_form let_form = eval_let

-- What follows the count of the parts, in each form.
counted_parts :
    {r : Runtime} {args e : Mobj} {xs : List Mobj} (f : Form) (k : ℕ → Cmd (Unit {0}))
    → IsFresh r
    → Chain r args xs e
    → (mnullp e && fits f (length xs)) ≡ false
    → ((n : ℕ) → fits f n ≡ false → k n r ≡ error (malformed f) r)
    → (list_length args >>= k) r ≡ error (if mnullp e then malformed f else improper_list) r
counted_parts {e = e} {xs = xs} f k fresh c bad refused = elim (Bool-cases (mnullp e)) [
  | inl n ↦ let bad' = rw n at bad in rw (list_length-Chain fresh c, n) (refused (length xs) bad')
  | inr n ↦ rw (list_length-Chain fresh c, n) refl
]

outside : (r : Runtime) (v : Mobj) → v ≡ mnull → menvp v r ≡ ok false r
unfolding menvp has_secondary
outside r v h = rw h refl

-- In a fresh heap, outside every lexical scope, a special form whose tail is a chain of pairs that does
-- not end with the empty list raises `improper list`, and one whose tail is a list of the wrong number of
-- parts raises the error of the form; either way nothing has changed.
pub eval_form-malformed :
    {r : Runtime} {args e : Mobj} {xs : List Mobj} (f : Form)
    → IsFresh r
    → r.eval_env ≡ mnull
    → Chain r args xs e
    → (mnullp e && fits f (length xs)) ≡ false
    → eval_form f args r ≡ error (if mnullp e then malformed f else improper_list) r
unfolding eval_form fits malformed
eval_form-malformed quote_form fresh top c bad =
    unfold eval_quote in counted_parts quote_form _ fresh c bad (λ n h. rw h refl)
eval_form-malformed if_form fresh top c bad =
    unfold eval_if in counted_parts if_form _ fresh c bad (λ n h. rw h refl)
eval_form-malformed lambda_form fresh top c bad =
    unfold eval_lambda in counted_parts lambda_form _ fresh c bad (λ n h. ground arith)
eval_form-malformed {r} define_form fresh top c bad =
    unfold eval_define in
    rw (outside r r.eval_env top) (counted_parts define_form _ fresh c bad (λ n h. rw h refl))
eval_form-malformed set_form fresh top c bad =
    unfold eval_set in counted_parts set_form _ fresh c bad (λ n h. rw h refl)
eval_form-malformed let_form fresh top c bad =
    unfold eval_let in counted_parts let_form _ fresh c bad (λ n h. ground arith)
