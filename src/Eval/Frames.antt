-- ===== src/Eval/Frames.antt =====
-- src/eval.c and src/alloc.c: what a stretch of the evaluation keeps, and the frame that a
-- constructor of frames leaves at the allocation pointer.
use mathlib.Core.Path.{subst}
use minim.Base.{
  ℕ, suc, ◌^◌, length-replicate, ◌+◌, ◌≤◌, ◌<◌, ◌≡◌, refl, ◌∙◌, none, some, List, [], ◌∷◌, arith,
  get_elem?, set, length, replicate, ==_refl,
}
use minim.Object.{
  Addr, Mobj, fixnum, typed, kont, Sec, Object, slots, object_size, vector_size, align,
}
use minim.Runtime.{Runtime, ok, write, mtyped_obj_ref, mtyped_obj_set}
use minim.Runtime.Laws.{IsFresh}
use minim.Alloc.{gc_alloc, typed_alloc, mkont, mkont_if, mkont_seq, kont_if, kont_seq}

-- What was allocated in `r` is in `s` as it was, what `s` allocates is unused, and the globals that an
-- evaluation only reads are the same.
abbrev pub Extends : Runtime → Runtime → Type 0
Extends r s =
    ((a : Addr) → a < r.ap → s.heap a ≡ r.heap a)
    × (r.ap ≤ s.ap)
    × ((a : Addr) → s.ap ≤ a → s.heap a ≡ none)
    × (s.top_level_env ≡ r.top_level_env)
    × (s.quote_sym ≡ r.quote_sym)
    × (s.if_sym ≡ r.if_sym)
    × (s.begin_sym ≡ r.begin_sym)

pub Extends-refl : (r : Runtime) → IsFresh r → Extends r r
Extends-refl r fresh = (λ a h. refl, omega arith, fresh.unused, refl, refl, refl, refl)

pub Extends-trans : (r s t : Runtime) → Extends r s → Extends s t → Extends r t
Extends-trans r s t (h, n, f, a, b, c, d) (h', n', f', a', b', c', d') =
    (λ x lt. h' x (omega arith) ∙ h x lt, omega arith, f', a' ∙ a, b' ∙ b, c' ∙ c, d' ∙ d)

-- A write behind the allocation pointer of `r`.
pub Extends-write :
    (r s : Runtime) (p : Addr) (o : Object)
    → Extends r s
    → r.ap ≤ p
    → p < s.ap
    → Extends r (write s p o)
Extends-write r s p o (h, n, f, a, b, c, d) le lt =
    (λ x below. ground (arith, h x), n, λ x above. ground (arith, f x), a, b, c, d)

pub set_slot :
    (r : Runtime) {p : Addr} {sec : Sec} {xs : List Mobj} {y : Mobj} (i : ℕ) (x : Mobj)
    → r.heap p ≡ some (slots sec xs)
    → get_elem? xs i ≡ some y
    → mtyped_obj_set (typed p) i x r ≡ ok tt (write r p (slots sec (set xs i x)))
unfolding mtyped_obj_set
set_slot r i x h e = ground arith

pub write_here : (r : Runtime) (p : Addr) (o : Object) → (write r p o).heap p ≡ some o
write_here r p o = rw (==_refl p)

pub slot_at :
    (r : Runtime) {p : Addr} {sec : Sec} {xs : List Mobj} {x : Mobj} (i : ℕ)
    → r.heap p ≡ some (slots sec xs)
    → get_elem? xs i ≡ some x
    → mtyped_obj_ref (typed p) i r ≡ ok x r
unfolding mtyped_obj_ref
slot_at r {p} i h e = ground arith

-- The state `u` is `s` with a frame at its allocation pointer, and the registers as they were.
pub record Pushed (s : Runtime) (xs : List Mobj) (u : Runtime) : Type 0 where
  pub frame : u.heap s.ap ≡ some (slots kont xs)
  pub used : s.ap < u.ap
  pub above : Extends s u
  pub expr : u.eval_expr ≡ s.eval_expr
  pub env : u.eval_env ≡ s.eval_env
  pub kont : u.eval_kont ≡ s.eval_kont
  pub mode : u.mode ≡ s.mode
  pub table : u.intern_table ≡ s.intern_table

pub vector_size_pos : (n : ℕ) → n < 2 ^ 60 → 0 < vector_size n
unfolding vector_size align
vector_size_pos n h = omega arith

-- A new frame whose slots are not filled yet.
typed_alloc-Pushed :
    (s : Runtime) (n : ℕ)
    → IsFresh s
    → n < 2 ^ 60
    → (u : Runtime) × (typed_alloc n kont s ≡ ok (typed s.ap) u)
      × Pushed s (replicate n (fixnum 0)) u
unfolding typed_alloc gc_alloc object_size
typed_alloc-Pushed s n fresh h = (
  _,
  refl,
  record {
    frame = write_here s s.ap _;
    used = omega (arith, size);
    above = (
      λ a lt. ground arith,
      omega arith,
      λ a le. ground (arith, size, fresh.unused a),
      refl,
      refl,
      refl,
      refl,
    );
    expr = refl;
    env = refl;
    kont = refl;
    mode = refl;
    table = refl;
  },
)
  where
    size : 0 < vector_size (length (replicate n (fixnum 0)))
    size = vector_size_pos _ (rw (length-replicate n (fixnum 0)) h)

-- One more slot of the frame is filled.
set_slot-Pushed :
    {s u : Runtime} {xs : List Mobj} {y : Mobj} (i : ℕ) (x : Mobj)
    → Pushed s xs u
    → get_elem? xs i ≡ some y
    → (t : Runtime) × (mtyped_obj_set (typed s.ap) i x u ≡ ok tt t) × Pushed s (set xs i x) t
set_slot-Pushed {s} {u} {xs} i x p e = (
  write u s.ap (slots kont (set xs i x)),
  set_slot u i x p.frame e,
  record {
    frame = write_here u s.ap _;
    used = p.used;
    above = Extends-write s u s.ap _ p.above (omega arith) p.used;
    expr = p.expr;
    env = p.env;
    kont = p.kont;
    mode = p.mode;
    table = p.table;
  },
)

module _ (s : Runtime) (fresh : IsFresh s) (parent env : Mobj) where
  -- A frame with its header, and the other slots not filled yet.
  pub mkont-Pushed :
      (kind : Mobj) (n : ℕ)
      → n < 8
      → (u : Runtime) × (mkont kind parent env n s ≡ ok (typed s.ap) u)
        × Pushed s (kind ∷ parent ∷ env ∷ replicate n (fixnum 0)) u
  unfolding mkont
  mkont-Pushed kind n h =
      let (a, ea, pa) = typed_alloc-Pushed s (3 + n) fresh (omega arith) in
      let three : 3 + n ≡ suc (suc (suc n)) = omega arith in
      let pa' = subst (λ m. Pushed s (replicate m (fixnum 0)) a) three pa in
      let (b, eb, pb) = set_slot-Pushed 0 kind pa' refl in
      let (c, ec, pc) = set_slot-Pushed 1 parent pb refl in
      let (d, ed, pd) = set_slot-Pushed 2 env pc refl in (d, rw (ea, eb, ec, ed), pd)

  -- The frame of `if`.
  pub mkont_if-Pushed :
      (t e : Mobj)
      → (u : Runtime) × (mkont_if parent env t e s ≡ ok (typed s.ap) u)
        × Pushed s (kont_if ∷ parent ∷ env ∷ t ∷ e ∷ []) u
  unfolding mkont_if
  mkont_if-Pushed t e =
      let (a, ea, pa) = mkont-Pushed kont_if 2 (omega arith) in
      let (b, eb, pb) = set_slot-Pushed 3 t pa refl in
      let (c, ec, pc) = set_slot-Pushed 4 e pb refl in (c, rw (ea, eb, ec), pc)

  -- The frame of a sequence.
  pub mkont_seq-Pushed :
      (rest : Mobj)
      → (u : Runtime) × (mkont_seq parent env rest s ≡ ok (typed s.ap) u)
        × Pushed s (kont_seq ∷ parent ∷ env ∷ rest ∷ []) u
  unfolding mkont_seq
  mkont_seq-Pushed rest =
      let (a, ea, pa) = mkont-Pushed kont_seq 1 (omega arith) in
      let (b, eb, pb) = set_slot-Pushed 3 rest pa refl in (b, rw (ea, eb), pb)
