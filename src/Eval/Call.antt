-- ===== src/Eval/Call.antt =====
-- src/eval.c, the call of a closure in `step_apply`: the scope in which the body runs.
use minim.Base.{
  ℕ, ◌+◌, ◌*◌, ◌^◌, ◌<◌, ◌≡◌, ◌≢◌, ◌==◌, true, refl, ap, ◌∙◌, some, List, [], ◌∷◌, arith, length,
  length-replicate, replicate, ==_refl, ==_ne,
}
use minim.Object.{
  Addr, Mobj, mfalse, mnull, typed, pair, closure, slots, vector, cons_cell, object_size, lambda,
}
use minim.Runtime.{Runtime, ok, error, eval_mode, mclosure_slots, closure_arity}
use minim.Runtime.Laws.{IsFresh}
use minim.Runtime.Bind.{mcar-at, mcdr-at}
use minim.Alloc.{mvector, gc_alloc}
use minim.Alloc.Laws.{allocated}
use minim.Eval.Env.Lexical
use minim.Eval.Env.Lexical.{Env, Env-frame, Even}
use minim.Eval.Env.ProperList.{Chain, list_length-Chain}
use minim.Eval.Step.{enter_body}
use minim.Eval.Apply.{apply_closure}
use minim.Eval.Frames.{Extends, Extends-trans, write_here, vector_size_pos}
use minim.Eval.Scope.{Extends-IsFresh, Extends-Keeps}
use minim.Eval.Closure.{
  interleave, unfilled, fill_rib-interleave, replicate-unfilled, alloc-Extends, menv_extend-frame,
}

interleave-Even : (xs ys : List Mobj) → Even (interleave xs ys)
unfolding interleave
interleave-Even [] ys = tt
interleave-Even (x ∷ xs) [] = tt
interleave-Even (x ∷ xs) (y ∷ ys) = interleave-Even xs ys

slots_of_closure :
    (r : Runtime) {p : Addr} {params body saved n : Mobj}
    → r.heap p ≡ some (lambda params body saved n)
    → mclosure_slots (closure p) r
      ≡ ok (record { params = params; body = body; env = saved; name = n }) r
unfolding mclosure_slots
slots_of_closure r h = ground arith

module _ {r : Runtime} {p : Addr} {params body saved n args : Mobj} {xs ys : List Mobj}
    (fresh : IsFresh r) (h : r.heap p ≡ some (lambda params body saved n))
    (formal : Chain r params xs mnull) (actual : Chain r args ys mnull) where
  -- In a fresh heap, a closure whose parameters are a list, on a list of arguments of another length,
  -- raises the error of the arity with both lengths, and changes nothing.
  pub apply_closure-arity :
      length xs ≢ length ys
      → apply_closure (closure p) args r ≡ error (closure_arity (length xs) (length ys)) r
  unfolding apply_closure
  apply_closure-arity differ =
      rw
        (
          slots_of_closure r h,
          list_length-Chain fresh formal,
          list_length-Chain fresh actual,
          ==_ne (length xs) (length ys) differ,
        )
        refl

-- A new rib for the parameters.
rib_made :
    {r : Runtime} (n : ℕ)
    → IsFresh r
    → 2 * n < 2 ^ 60
    → (a : Runtime) × (mvector (2 * n) mfalse r ≡ ok (typed r.ap) a)
      × Extends r a
      × (r.ap < a.ap)
      × (a.eval_kont ≡ r.eval_kont)
      × (a.heap r.ap ≡ some (slots vector (unfilled (n))))
unfolding mvector gc_alloc
rib_made {r} n fresh small =
    let o = slots vector (replicate (2 * n) mfalse) in
    let pos : 0 < object_size o =
      unfold object_size in vector_size_pos _ (rw (length-replicate (2 * n) mfalse) small) in
    (
      allocated o r,
      refl,
      alloc-Extends r o fresh pos,
      omega (arith, pos),
      refl,
      write_here r r.ap o ∙ ap (λ zs. some (slots vector zs)) (replicate-unfilled (n)),
    )

module _ {r : Runtime} {p q : Addr} {params saved n args : Mobj} {xs ys : List Mobj}
    (fresh : IsFresh r) (h : r.heap p ≡ some (lambda params (pair q) saved n))
    (formal : Chain r params xs mnull) (actual : Chain r args ys mnull) where
  -- In a fresh heap, a closure whose parameters are a list and whose body is one expression, on a list
  -- of as many arguments, whose rib has fewer than 2^60 slots: the machine goes on with the body in the
  -- closure's scope behind a new rib that binds the parameters in their order to the arguments. The
  -- continuation is the one of the call, with no frame added, and all that was allocated is unchanged.
  pub apply_closure-Env :
      {e : Mobj} {ribs : List (List Mobj)}
      → length xs ≡ length ys
      → 2 * length xs < 2 ^ 60
      → r.heap q ≡ some (cons_cell e mnull)
      → Env r r.ap saved ribs
      → (u : Runtime) × (apply_closure (closure p) args r ≡ ok tt u)
        × (u.mode ≡ eval_mode)
        × (u.eval_expr ≡ e)
        × (u.eval_kont ≡ r.eval_kont)
        × Env u u.ap u.eval_env (interleave xs ys ∷ ribs)
        × Extends r u
  unfolding apply_closure enter_body
  apply_closure-Env {e = e} same small hq lexical =
      let (a, made, xa, lt, kept, blank_rib) = rib_made (length xs) fresh small in
      let (heap', filled, rib, xf) =
        fill_rib-interleave r fresh r.ap (omega arith) a 0 [] xa lt formal actual same refl
          blank_rib in
      let f = record a { heap = heap' } in
      let (heap'', size, extended, frame, pos, xe) =
        menv_extend-frame f (typed r.ap) saved (Extends-IsFresh r f xf) in
      let g = record f { heap = heap''; ap = a.ap + size } in
      let xg : Extends r g = Extends-trans r f g xf xe in
      let body_kept : g.heap q ≡ some (cons_cell e mnull) = Extends-Keeps r g fresh xg q _ hq in
      let arity : (length xs == length ys) ≡ true = rw same (==_refl (length ys)) in
      (
        record g { eval_env = typed a.ap; eval_expr = e; mode = eval_mode },
        rw
            (
              slots_of_closure r h,
              list_length-Chain fresh formal,
              list_length-Chain fresh actual,
              arity,
              made,
              filled,
              extended,
              mcar-at (record g { eval_env = typed a.ap }) q body_kept,
              mcdr-at (record g { eval_env = typed a.ap; eval_expr = e }) q body_kept,
            )
            refl,
        refl,
        refl,
        kept,
        Lexical.frame frame (xe.0 r.ap lt ∙ rib) (interleave-Even xs ys) lt (omega (arith, pos))
            (Env-frame _ lexical xg.0),
        xg,
      )
