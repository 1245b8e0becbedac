-- ===== src/Repl/Literals.antt =====
-- src/eval.c, `Meval` on a literal.
use mathlib.Core.Path.{subst}
use minim.Base.{
  ℕ, suc, ◌≡◌, ◌≢◌, refl, sym, ◌∙◌, ap, true, false, Option, some, List, arith, ltb, ltb→lt,
  Bool-cases, inl, inr,
}
use minim.Object.{Addr, Mobj, mnull, mnullp, typed, str, Object}
use minim.Runtime.{
  Runtime, Cmd, PrimFn, ok, eval_mode, apply_mode, halt_mode, mvectorp, mstringp, has_secondary,
  load,
}
use minim.Runtime.Laws.{IsFresh, Keeps}
use minim.Alloc.{kont_halt}
use minim.Symbol.Laws.{IsTable}
use minim.Prims.Registered.{IsTable-Keeps}
use minim.Eval.Step.{is_self_evaluating}
use minim.Eval.Apply.{meval}
use minim.Eval.Frames.{Extends, mkont-Pushed}
use minim.Eval.Meval.{loop_halts, loop_goes_on}
use minim.Eval.Rounds.{step_literal, step-kont_halt, returned}
use minim.Prims.Lists.{meofp}
use minim.Repl.{mvoidp}
use minim.Reader.Heap.{Shows-Keeps}
use minim.Writer.Data.{Datum, number, character, truth, text, identifier, cons, empty, Shows}

-- The data that evaluate to themselves.
abbrev pub IsLiteral : Datum → Type 0
IsLiteral (number n) = Unit {0}
IsLiteral (character c) = Unit {0}
IsLiteral (truth b) = Unit {0}
IsLiteral (text bs) = Unit {0}
IsLiteral _ = ⊥

string_literal :
    (p : Addr) (bs : List ℕ) (r : Runtime)
    → r.heap p ≡ some (str bs)
    → is_self_evaluating (typed p) r ≡ ok true r
unfolding is_self_evaluating mvectorp mstringp has_secondary
string_literal p bs r h = rw (h, load) (rw (h, load) refl)

pub IsLiteral-evaluates :
    (base : Addr → Option Object) (d : Datum) (v : Mobj) (r : Runtime)
    → IsLiteral d
    → Shows base r d v
    → (is_self_evaluating v r ≡ ok true r)
      × (mnullp v ≡ false)
      × (mvoidp v ≡ false)
      × (meofp v ≡ false)
unfolding is_self_evaluating
IsLiteral-evaluates base (number n) v r h s = rw s (refl, refl, refl, refl)
IsLiteral-evaluates base (character c) v r h s = rw s (refl, refl, refl, refl)
IsLiteral-evaluates base (truth true) v r h s = rw s (refl, refl, refl, refl)
IsLiteral-evaluates base (truth false) v r h s = rw s (refl, refl, refl, refl)
IsLiteral-evaluates base (text bs) v r h (p, e, k) =
    rw e (string_literal p bs r k, refl, refl, refl)
IsLiteral-evaluates base (identifier s) v r h s' = elim h [ ]
IsLiteral-evaluates base (cons a b) v r h s = elim h [ ]
IsLiteral-evaluates base empty v r h s = elim h [ ]

Extends-Keeps : (r s : Runtime) → IsFresh r → Extends r s → Keeps r s
Extends-Keeps r s fresh (same, n, f, a, b, c, d) p o h = elim (Bool-cases (ltb p r.ap)) [
  | inl below ↦ rw (same p (ltb→lt p r.ap below)) h
  | inr above ↦ absurd (cc (fresh.unused p (ground arith), h))
]

evaluating : eval_mode ≢ halt_mode
evaluating e = cc

applying : apply_mode ≢ halt_mode
applying e = cc

module _ (call_prim : PrimFn → Mobj → Cmd Mobj) where
  -- Three rounds are enough for a literal: Meval returns it, and the table and the objects are kept.
  pub meval_literal :
      (base : Addr → Option Object) (d : Datum) (v : Mobj) (fuel : ℕ) (r : Runtime)
      → IsTable r
      → IsLiteral d
      → Shows base r d v
      → (t : Runtime) × (meval call_prim (suc (suc (suc fuel))) v r ≡ ok v t)
        × IsTable t
        × Keeps r t
  unfolding meval
  meval_literal base d v fuel r table lit shows =
      let s = record r { eval_expr = v; eval_env = mnull } in
      let (u, made, pushed) =
        mkont-Pushed s (record { unused = table.fresh.unused }) mnull mnull kont_halt 0
          (omega arith) in
      let start = record u { eval_kont = typed r.ap; mode = eval_mode } in
      let kept : Keeps r u = Extends-Keeps r u table.fresh pushed.above in
      let (literal, not_null, not_void, not_eof) =
        IsLiteral-evaluates base d v start lit (Shows-Keeps base r start d v kept shows) in
      let here : is_self_evaluating u.eval_expr start ≡ ok true start =
        subst (λ x. is_self_evaluating x start ≡ ok true start) (sym pushed.expr) literal in
      let second = returned u.eval_expr start in
      let last = record second { mode = halt_mode } in
      let e1 =
        step_literal call_prim start refl here
          (subst (λ x. mnullp x ≡ false) (sym pushed.expr) not_null) in
      let e2 = step-kont_halt call_prim second refl refl pushed.frame in
      let looped =
        loop_goes_on call_prim start second (suc (suc fuel)) evaluating e1
        ∙ loop_goes_on call_prim second last (suc fuel) applying e2
        ∙ loop_halts call_prim last fuel refl in
      (
        last,
        rw made (looped ∙ ap (λ x. ok x last) pushed.expr),
        IsTable-Keeps last table kept (record { unused = pushed.above.2 }) pushed.table,
        kept,
      )
