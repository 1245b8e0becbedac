-- ===== src/Eval/Returns.antt =====
-- src/eval.c: stretches of the loop of Meval, up to the value for the frame that waits.
use minim.Base.{◌≤◌, ◌<◌, ◌≡◌, ◌≢◌, refl, ◌∙◌, ap, some, false, [], ◌∷◌, if◌then◌else◌}
use minim.Object.{Addr, Mobj, typed, pair, mnullp, mfalsep, slots, kont, Object, cons_cell, mnull}
use minim.Runtime.{Runtime, Cmd, PrimFn, EvalMode, ok, eval_mode, apply_mode, halt_mode}
use minim.Runtime.Laws.{IsFresh}
use minim.Alloc.{kont_if, kont_seq}
use minim.Eval.Apply.{step}
use minim.Eval.Frames.{Extends, Extends-refl, Extends-trans, Extends-write, write_here}
use minim.Eval.Rounds.{returned, step-kont_if, step-kont_seq_last, step-kont_seq_more}

-- Some rounds of the loop of Meval lead from one state to another.
pub data Reaches (call_prim : PrimFn → Mobj → Cmd Mobj) : Runtime → Runtime → Type 0 where
  done : {s : Runtime} → Reaches call_prim s s
  round :
      {s t u : Runtime}
      → s.mode ≢ halt_mode
      → step call_prim s ≡ ok tt t
      → Reaches call_prim t u
      → Reaches call_prim s u

pub eval_no_halt : {m : EvalMode} → m ≡ eval_mode → m ≢ halt_mode
eval_no_halt e h = cc (e, h)

pub apply_no_halt : {m : EvalMode} → m ≡ apply_mode → m ≢ halt_mode
apply_no_halt e h = cc (e, h)

module _ (call_prim : PrimFn → Mobj → Cmd Mobj) where
  pub Reaches-trans :
      {s t u : Runtime} → Reaches call_prim s t → Reaches call_prim t u → Reaches call_prim s u
  Reaches-trans done k = k
  Reaches-trans (round m h rest) k = round m h (Reaches-trans rest k)

  -- From `s` the machine comes to hand `v` to the frames `parent`, and keeps what `b` has.
  pub record Returns (b s : Runtime) (parent v : Mobj) (u : Runtime) : Type 0 where
    pub reaches : Reaches call_prim s u
    pub keeps : Extends b u
    pub mode : u.mode ≡ apply_mode
    pub expr : u.eval_expr ≡ v
    pub kont : u.eval_kont ≡ parent

  -- One round, and then what follows it.
  pub after_round :
      {b s t : Runtime} {parent v : Mobj}
      → s.mode ≢ halt_mode
      → step call_prim s ≡ ok tt t
      → (u : Runtime) × Returns b t parent v u
      → (u : Runtime) × Returns b s parent v u
  after_round m h (u, k) = (
    u,
    record {
      reaches = round m h k.reaches;
      keeps = k.keeps;
      mode = k.mode;
      expr = k.expr;
      kont = k.kont;
    },
  )

  pub after_rounds :
      {b s t : Runtime} {parent v : Mobj}
      → Reaches call_prim s t
      → (u : Runtime) × Returns b t parent v u
      → (u : Runtime) × Returns b s parent v u
  after_rounds h (u, k) = (
    u,
    record {
      reaches = Reaches-trans h k.reaches;
      keeps = k.keeps;
      mode = k.mode;
      expr = k.expr;
      kont = k.kont;
    },
  )

  -- A round that returns at once.
  pub immediate-Returns :
      (s : Runtime) (v : Mobj)
      → IsFresh s
      → s.mode ≡ eval_mode
      → step call_prim s ≡ ok tt (returned v s)
      → (u : Runtime) × Returns s s s.eval_kont v u
  immediate-Returns s v fresh m h = (
    returned v s,
    record {
      reaches = round (eval_no_halt m) h done;
      keeps = Extends-refl s fresh;
      mode = refl;
      expr = refl;
      kont = refl;
    },
  )

  -- From `s` the machine comes to evaluate `e` in `saved` for the frames `parent`, and keeps what `b`
  -- has.
  pub record Resumes (b s : Runtime) (parent saved e : Mobj) (t : Runtime) : Type 0 where
    pub reaches : Reaches call_prim s t
    pub keeps : Extends b t
    pub mode : t.mode ≡ eval_mode
    pub expr : t.eval_expr ≡ e
    pub env : t.eval_env ≡ saved
    pub kont : t.eval_kont ≡ parent

  pub finish :
      {b s t : Runtime} {parent saved e v : Mobj}
      → Resumes b s parent saved e t
      → (u : Runtime) × Returns t t t.eval_kont v u
      → (u : Runtime) × Returns b s parent v u
  finish {b} {s} {t} h (u, k) = (
    u,
    record {
      reaches = Reaches-trans h.reaches k.reaches;
      keeps = Extends-trans b t u h.keeps k.keeps;
      mode = k.mode;
      expr = k.expr;
      kont = k.kont ∙ h.kont;
    },
  )

pub object_kept :
    (s t : Runtime) {p : Addr} {o : Object}
    → Extends s t
    → p < s.ap
    → s.heap p ≡ some o
    → t.heap p ≡ some o
object_kept s t {p} (same, n, f, top, q, i, b) lt h = same p lt ∙ h

module _ (call_prim : PrimFn → Mobj → Cmd Mobj) where
  -- The test has its value: the frame of `if` goes on with one branch, and is off the continuation.
  pub after_test :
      {b s : Runtime} {f : Addr} {parent saved t e c : Mobj}
      → Extends b s
      → s.mode ≡ apply_mode
      → s.eval_expr ≡ c
      → s.eval_kont ≡ typed f
      → s.heap f ≡ some (slots kont (kont_if ∷ parent ∷ saved ∷ t ∷ e ∷ []))
      → (u : Runtime) × Resumes call_prim b s parent saved (if mfalsep c then e else t) u
  after_test {s = s} {t = t} {e = e} ext m x k h = (
    _,
    record {
      reaches = round (apply_no_halt m) (step-kont_if call_prim s m k h) done;
      keeps = ext;
      mode = refl;
      expr = ap (λ c. if mfalsep c then e else t) x;
      env = refl;
      kont = refl;
    },
  )

  module _ {b s : Runtime} {f p : Addr} {parent saved e : Mobj} (ext : Extends b s)
      (m : s.mode ≡ apply_mode) (k : s.eval_kont ≡ typed f)
      (h : s.heap f ≡ some (slots kont (kont_seq ∷ parent ∷ saved ∷ pair p ∷ []))) where
    -- The last expression of a sequence takes the place of the frame.
    pub after_last :
        s.heap p ≡ some (cons_cell e mnull) → (u : Runtime) × Resumes call_prim b s parent saved e u
    after_last h' = (
      _,
      record {
        reaches = round (apply_no_halt m) (step-kont_seq_last call_prim s m k h h') done;
        keeps = ext;
        mode = refl;
        expr = refl;
        env = refl;
        kont = refl;
      },
    )

    -- The frame stays for the expressions behind the next one.
    pub after_part :
        {rest : Mobj}
        → s.heap p ≡ some (cons_cell e rest)
        → mnullp rest ≡ false
        → b.ap ≤ f
        → f < s.ap
        → (u : Runtime) × Resumes call_prim b s (typed f) saved e u
          × (u.heap f ≡ some (slots kont (kont_seq ∷ parent ∷ saved ∷ rest ∷ [])))
          × (f < u.ap)
    after_part h' n le lt = (
      _,
      record {
        reaches = round (apply_no_halt m) (step-kont_seq_more call_prim s m k h h' n) done;
        keeps = Extends-write b s f _ ext le lt;
        mode = refl;
        expr = refl;
        env = refl;
        kont = k;
      },
      write_here s f _,
      lt,
    )
