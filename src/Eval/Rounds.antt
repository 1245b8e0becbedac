-- ===== src/Eval/Rounds.antt =====
-- src/eval.c: single rounds of the loop of Meval on the forms without effect and on their frames.
use mathlib.Core.Path.{subst}
use minim.Base.{ℕ, ◌≡◌, refl, sym, false, true, some, List, [], ◌∷◌, if◌then◌else◌, get_elem?, set}
use minim.Object.{
  Addr, Mobj, mnull, pair, typed, symbol, kont, slots, cons_cell, mfalsep, mnullp, msymbolp, ◌=?◌,
  =?_refl,
}
use minim.Runtime.{
  Runtime, Cmd, PrimFn, ok, eval_mode, apply_mode, halt_mode, write, mtyped_obj_ref, mtyped_obj_set,
  mvectorp, mstringp, has_secondary,
}
use minim.Runtime.Laws.{IsFresh}
use minim.Runtime.Bind.{mcar-at, mcdr-at}
use minim.Alloc.{kont_halt, kont_if, kont_seq}
use minim.Eval.Env.{env_lookup}
use minim.Eval.Env.ProperList.{Chain, cell, list_length-Chain}
use minim.Eval.Step.{
  is_self_evaluating, eval_literal, eval_symbol, eval_quote, eval_if, eval_begin, eval_compound,
  step_eval,
}
use minim.Eval.Apply.{apply_if, apply_seq, step_apply, step}
use minim.Eval.Frames.{slot_at, set_slot, write_here, Pushed, mkont_if-Pushed, mkont_seq-Pushed}

-- The words of the special forms that the rounds below tell apart.
pub record IsDistinct (r : Runtime) : Type 0 where
  pub if_quote : (r.if_sym =? r.quote_sym) ≡ false
  pub begin_quote : (r.begin_sym =? r.quote_sym) ≡ false
  pub begin_if : (r.begin_sym =? r.if_sym) ≡ false

-- The state with a value for the frame on top.
abbrev pub returned : Mobj → Runtime → Runtime
returned v s = record s { eval_expr = v; mode = apply_mode }

symbol_no_literal :
    {s : Runtime} {v : Mobj} {p : Addr} → v ≡ symbol p → is_self_evaluating v s ≡ ok false s
unfolding is_self_evaluating mvectorp mstringp has_secondary
symbol_no_literal e = rw e refl

symbol_tagged : {v : Mobj} {p : Addr} → v ≡ symbol p → msymbolp v ≡ true
symbol_tagged e = rw e refl

module _ (call_prim : PrimFn → Mobj → Cmd Mobj) (s : Runtime) where
  module _ (m : s.mode ≡ eval_mode) where
    step_evaluates : step call_prim s ≡ step_eval s
    unfolding step
    step_evaluates = rw m refl

    pub step_literal :
        is_self_evaluating s.eval_expr s ≡ ok true s
        → mnullp s.eval_expr ≡ false
        → step call_prim s ≡ ok tt (returned s.eval_expr s)
    unfolding step_eval eval_literal
    step_literal h n = rw (step_evaluates, h, n) refl

    pub step_symbol :
        {p : Addr} {v : Mobj}
        → s.eval_expr ≡ symbol p
        → env_lookup s.eval_env (symbol p) s ≡ ok v s
        → step call_prim s ≡ ok tt (returned v s)
    unfolding step_eval eval_symbol
    step_symbol {v = v} e h =
        let found : env_lookup s.eval_env s.eval_expr s ≡ ok v s =
          subst (λ x. env_lookup s.eval_env x s ≡ ok v s) (sym e) h in
        rw (step_evaluates, symbol_no_literal e, symbol_tagged e, found) refl

    module _ {p : Addr} {head args : Mobj} (e : s.eval_expr ≡ pair p)
        (h : s.heap p ≡ some (cons_cell head args)) where
      step_pair : step call_prim s ≡ eval_compound (pair p) s
      unfolding step step_eval is_self_evaluating mvectorp mstringp has_secondary
      step_pair = rw (m, e) refl

      pub step_quote : head ≡ s.quote_sym → step call_prim s ≡ eval_quote args s
      unfolding eval_compound
      step_quote q = rw (step_pair, mcar-at s p h, mcdr-at s p h, q, =?_refl s.quote_sym) refl

      module _ (distinct : IsDistinct s) where
        pub step_if : head ≡ s.if_sym → step call_prim s ≡ eval_if args s
        unfolding eval_compound
        step_if q =
            rw (step_pair, mcar-at s p h, mcdr-at s p h, q, distinct.if_quote, =?_refl s.if_sym)
              refl

        pub step_begin : head ≡ s.begin_sym → step call_prim s ≡ eval_begin args s
        unfolding eval_compound
        step_begin q =
            rw
              (
                step_pair,
                mcar-at s p h,
                mcdr-at s p h,
                q,
                distinct.begin_quote,
                distinct.begin_if,
                =?_refl s.begin_sym,
              )
              refl

module _ (s : Runtime) (fresh : IsFresh s) where
  pub eval_quote-Chain :
      {args v : Mobj} → Chain s args (v ∷ []) mnull → eval_quote args s ≡ ok tt (returned v s)
  unfolding eval_quote
  eval_quote-Chain (cell {p = p} h c) = rw (list_length-Chain fresh (cell h c), mcar-at s p h) refl

  -- `if` leaves its frame and goes on with the test.
  pub eval_if-Chain :
      {args test t e : Mobj}
      → Chain s args (test ∷ t ∷ e ∷ []) mnull
      → (u : Runtime) × (eval_if args s ≡ ok tt (record u { eval_kont = typed s.ap }))
        × Pushed (record s { eval_expr = test }) (kont_if ∷ s.eval_kont ∷ s.eval_env ∷ t ∷ e ∷ []) u
  unfolding eval_if
  eval_if-Chain {test = test} {t = t} {e = e}
        (cell {p = p} h (cell {p = q} h' (cell {p = q'} h'' c))) =
      let (u, made, pushed) =
        mkont_if-Pushed (record s { eval_expr = test }) (record { unused = fresh.unused })
          s.eval_kont s.eval_env t e in
      (
        u,
        rw
            (
              list_length-Chain fresh (cell h (cell h' (cell h'' c))),
              mcdr-at s p h,
              mcar-at s q h',
              mcdr-at s q h',
              mcar-at s q' h'',
              mcar-at s p h,
              made,
            )
            refl,
        pushed,
      )

  -- `begin` with one expression goes on with it, and leaves no frame.
  pub eval_begin-last :
      {p : Addr} {e : Mobj}
      → s.heap p ≡ some (cons_cell e mnull)
      → eval_begin (pair p) s ≡ ok tt (record s { eval_expr = e })
  unfolding eval_begin
  eval_begin-last {p} h = rw (mcdr-at s p h, mcar-at s p h) refl

  -- `begin` with more expressions leaves a frame for the others.
  pub eval_begin-more :
      {p : Addr} {e rest : Mobj}
      → s.heap p ≡ some (cons_cell e rest)
      → mnullp rest ≡ false
      → (u : Runtime) × (eval_begin (pair p) s ≡ ok tt (record u { eval_kont = typed s.ap }))
        × Pushed (record s { eval_expr = e }) (kont_seq ∷ s.eval_kont ∷ s.eval_env ∷ rest ∷ []) u
  unfolding eval_begin
  eval_begin-more {p} {e} {rest} h n =
      let (u, made, pushed) =
        mkont_seq-Pushed (record s { eval_expr = e }) (record { unused = fresh.unused }) s.eval_kont
          s.eval_env rest in
      (u, rw (mcdr-at s p h, mcar-at s p h, n, made) refl, pushed)

-- A frame on top takes a value.
module _ (call_prim : PrimFn → Mobj → Cmd Mobj) (s : Runtime) (m : s.mode ≡ apply_mode) {f : Addr}
    (k : s.eval_kont ≡ typed f) where
  step_applies : step call_prim s ≡ step_apply call_prim s
  unfolding step
  step_applies = rw m refl

  frame_ref :
      (t : Runtime) {xs : List Mobj} {x : Mobj} (i : ℕ)
      → t.heap f ≡ some (slots kont xs)
      → get_elem? xs i ≡ some x
      → mtyped_obj_ref s.eval_kont i t ≡ ok x t
  frame_ref t i h e = rw k (slot_at t i h e)

  frame_set :
      (t : Runtime) {xs : List Mobj} {y : Mobj} (i : ℕ) (x : Mobj)
      → t.heap f ≡ some (slots kont xs)
      → get_elem? xs i ≡ some y
      → mtyped_obj_set s.eval_kont i x t ≡ ok tt (write t f (slots kont (set xs i x)))
  frame_set t i x h e = rw k (set_slot t i x h e)

  pub step-kont_halt :
      {ys : List Mobj}
      → s.heap f ≡ some (slots kont (kont_halt ∷ ys))
      → step call_prim s ≡ ok tt (record s { mode = halt_mode })
  unfolding step_apply ◌=?◌
  step-kont_halt h = rw (step_applies, frame_ref s 0 h refl) refl

  pub step-kont_if :
      {parent saved t e : Mobj}
      → s.heap f ≡ some (slots kont (kont_if ∷ parent ∷ saved ∷ t ∷ e ∷ []))
      → step call_prim s
        ≡ ok tt (record s {
          eval_env = saved;
          eval_kont = parent;
          eval_expr = if mfalsep s.eval_expr then e else t;
          mode = eval_mode;
        })
  unfolding step_apply apply_if ◌=?◌
  step-kont_if {parent} {saved} {t} {e} h =
      rw
        (
          step_applies,
          frame_ref s 0 h refl,
          frame_ref s 3 h refl,
          frame_ref s 4 h refl,
          frame_ref s 2 h refl,
          frame_ref (record s { eval_env = saved }) 1 h refl,
        )
        refl

  -- The last expression of a sequence runs without the frame of the sequence.
  pub step-kont_seq_last :
      {parent saved e : Mobj} {p : Addr}
      → s.heap f ≡ some (slots kont (kont_seq ∷ parent ∷ saved ∷ pair p ∷ []))
      → s.heap p ≡ some (cons_cell e mnull)
      → step call_prim s
        ≡ ok tt (record s { eval_env = saved; eval_kont = parent; eval_expr = e; mode = eval_mode })
  unfolding step_apply apply_seq ◌=?◌
  step-kont_seq_last {parent} {saved} {e} {p} h h' =
      rw
        (
          step_applies,
          frame_ref s 0 h refl,
          frame_ref s 3 h refl,
          mcar-at s p h',
          mcdr-at s p h',
          frame_ref s 2 h refl,
          frame_ref (record s { eval_env = saved }) 1 h refl,
        )
        refl

  -- The frame keeps the expressions behind the next one.
  pub step-kont_seq_more :
      {parent saved e rest : Mobj} {p : Addr}
      → s.heap f ≡ some (slots kont (kont_seq ∷ parent ∷ saved ∷ pair p ∷ []))
      → s.heap p ≡ some (cons_cell e rest)
      → mnullp rest ≡ false
      → step call_prim s
        ≡ ok tt (record (write s f (slots kont (kont_seq ∷ parent ∷ saved ∷ rest ∷ []))) {
          eval_env = saved;
          eval_expr = e;
          mode = eval_mode;
        })
  unfolding step_apply apply_seq ◌=?◌
  step-kont_seq_more {parent} {saved} {e} {rest} {p} h h' n =
      let s' = write s f (slots kont (kont_seq ∷ parent ∷ saved ∷ rest ∷ [])) in
      rw
        (
          step_applies,
          frame_ref s 0 h refl,
          frame_ref s 3 h refl,
          mcar-at s p h',
          mcdr-at s p h',
          n,
          frame_set s 3 rest h refl,
          frame_ref s' 2 (write_here s f _) refl,
        )
        refl
