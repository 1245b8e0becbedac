-- ===== src/Eval/Closure.antt =====
-- src/eval.c, the call of a closure in `step_apply`: the rib of the parameters and the frame of the body.
use minim.Base.{
  ℕ, zero, suc, ◌+◌, ◌*◌, ◌≤◌, ◌<◌, ◌≡◌, refl, sym, ap, ◌∙◌, Option, some, List, [], ◌∷◌, ◌++◌,
  arith, length, length-append, get_elem?, set, replicate,
}
use minim.Object.{
  Addr, Mobj, fixnum, mfalse, typed, Object, slots, vector, env, object_size, vector_size, align,
}
use minim.Runtime.{Runtime, ok, write, mtyped_obj_set}
use minim.Runtime.Laws.{IsFresh}
use minim.Runtime.Bind.{mcar-at, mcdr-at}
use minim.Alloc.{menv_extend, typed_alloc, gc_alloc}
use minim.Alloc.Laws.{allocated}
use minim.Eval.Env.ProperList.{Chain, cell, stop}
use minim.Eval.Apply.{fill_rib}
use minim.Eval.Frames.{Extends, Extends-write, set_slot, write_here}
use minim.Eval.Scope.{Extends-Keeps}

-- The slots of a rib, for names and values one after the other.
unfoldable pub interleave : List Mobj → List Mobj → List Mobj
interleave [] ys = []
interleave (x ∷ xs) [] = []
interleave (x ∷ xs) (y ∷ ys) = x ∷ y ∷ interleave xs ys

abbrev pub unfilled : ℕ → List Mobj
unfilled zero = []
unfilled (suc n) = mfalse ∷ mfalse ∷ unfilled n

set-append :
    (xs : List Mobj) (y v : Mobj) (ys : List Mobj) (i : ℕ)
    → length xs ≡ i
    → set (xs ++ (y ∷ ys)) i v ≡ xs ++ (v ∷ ys)
set-append [] y v ys zero h = refl
set-append [] y v ys (suc i) h = absurd (omega arith)
set-append (x ∷ xs) y v ys zero h = absurd (omega arith)
set-append (x ∷ xs) y v ys (suc i) h = ap (λ zs. x ∷ zs) (set-append xs y v ys i (omega arith))

get_elem?-append :
    (xs : List Mobj) (y : Mobj) (ys : List Mobj) (i : ℕ)
    → length xs ≡ i
    → get_elem? (xs ++ (y ∷ ys)) i ≡ some y
get_elem?-append [] y ys zero h = refl
get_elem?-append [] y ys (suc i) h = absurd (omega arith)
get_elem?-append (x ∷ xs) y ys zero h = absurd (omega arith)
get_elem?-append (x ∷ xs) y ys (suc i) h = get_elem?-append xs y ys i (omega arith)

append_two :
    (xs : List Mobj) (y z : Mobj) (ys : List Mobj) → (xs ++ (y ∷ z ∷ [])) ++ ys ≡ xs ++ (y ∷ z ∷ ys)
append_two [] y z ys = refl
append_two (x ∷ xs) y z ys = ap (λ zs. x ∷ zs) (append_two xs y z ys)

append_one : (xs : List Mobj) (y : Mobj) (ys : List Mobj) → (xs ++ (y ∷ [])) ++ ys ≡ xs ++ (y ∷ ys)
append_one [] y ys = refl
append_one (x ∷ xs) y ys = ap (λ zs. x ∷ zs) (append_one xs y ys)

-- A slot in the middle is filled.
set_middle :
    (r : Runtime) (q : Addr) (before : List Mobj) (y v : Mobj) (behind : List Mobj) (i : ℕ)
    → length before ≡ i
    → r.heap q ≡ some (slots vector (before ++ (y ∷ behind)))
    → mtyped_obj_set (typed q) i v r ≡ ok tt (write r q (slots vector (before ++ (v ∷ behind))))
set_middle r q before y v behind i n h =
    set_slot r i v h (get_elem?-append before y behind i n)
    ∙ ap (λ zs. ok tt (write r q (slots vector zs))) (set-append before y v behind i n)

module _ (b : Runtime) (fresh : IsFresh b) (q : Addr) (le : b.ap ≤ q) where
  -- The loop fills the rib with the names and the values, and changes nothing else.
  pub fill_rib-interleave :
      (r : Runtime) (i : ℕ) {p a ep ea : Mobj} {xs ys : List Mobj} (before : List Mobj)
      → Extends b r
      → q < r.ap
      → Chain b p xs ep
      → Chain b a ys ea
      → length xs ≡ length ys
      → length before ≡ 2 * i
      → r.heap q ≡ some (slots vector (before ++ unfilled (length xs)))
      → (h : Addr → Option Object) × (fill_rib (length xs) i (typed q) p a r
          ≡ ok tt (record r { heap = h }))
        × (h q ≡ some (slots vector (before ++ interleave xs ys)))
        × Extends b (record r { heap = h })
  unfolding fill_rib interleave
  fill_rib-interleave r i before x lt (stop n) d e n' h = (r.heap, refl, h, x)
  fill_rib-interleave r i before x lt (cell k c) (stop n) e n' h = absurd (omega arith)
  fill_rib-interleave r i before x lt (cell {p = p} {a = name} {xs = xs} k c)
        (cell {p = a} {a = value} {xs = ys} k' d) e n' h =
      let u = unfilled (length xs) in
      let s = write r q (slots vector (before ++ (name ∷ mfalse ∷ u))) in
      let t = write s q (slots vector ((before ++ (name ∷ [])) ++ (value ∷ u))) in
      let y : Extends b s = Extends-write b r q _ x le lt in
      let z : Extends b t = Extends-write b s q _ y le lt in
      let named : mtyped_obj_set (typed q) (2 * i) name r ≡ ok tt s =
        set_middle r q before mfalse name (mfalse ∷ u) (2 * i) n' h in
      let middle : s.heap q ≡ some (slots vector ((before ++ (name ∷ [])) ++ (mfalse ∷ u))) =
        write_here r q _
        ∙ ap (λ zs. some (slots vector zs)) (sym (append_one before name (mfalse ∷ u))) in
      let valued : mtyped_obj_set (typed q) (2 * i + 1) value s ≡ ok tt t =
        set_middle s q (before ++ (name ∷ [])) mfalse value u (2 * i + 1)
          (omega (arith, length-append before (name ∷ []))) middle in
      let both : t.heap q ≡ some (slots vector ((before ++ (name ∷ value ∷ [])) ++ u)) =
        write_here s q _
        ∙ ap (λ zs. some (slots vector zs))
            (append_one before name (value ∷ u) ∙ sym (append_two before name value u)) in
      let (heap', rest, filled, ext) =
        fill_rib-interleave t (suc i) (before ++ (name ∷ value ∷ [])) z lt c d (omega arith)
          (omega (arith, length-append before (name ∷ value ∷ []))) both in
      (
        heap',
        rw
            (
              mcar-at r p (Extends-Keeps b r fresh x p _ k),
              named,
              mcar-at s a (Extends-Keeps b s fresh y a _ k'),
              valued,
              mcdr-at t p (Extends-Keeps b t fresh z p _ k),
              mcdr-at t a (Extends-Keeps b t fresh z a _ k'),
            )
            rest,
        filled
            ∙ ap (λ zs. some (slots vector zs)) (append_two before name value (interleave xs ys)),
        ext,
      )

pub alloc-Extends :
    (r : Runtime) (o : Object) → IsFresh r → 0 < object_size o → Extends r (allocated o r)
alloc-Extends r o fresh h = (
  λ a lt. ground arith,
  omega arith,
  λ a le. ground (arith, fresh.unused a),
  refl,
  refl,
  refl,
  refl,
)

pub replicate-unfilled : (n : ℕ) → replicate (2 * n) mfalse ≡ unfilled n
replicate-unfilled zero = refl
replicate-unfilled (suc n) =
    let two : 2 * suc n ≡ suc (suc (2 * n)) = omega arith in
    rw two (ap (λ zs. mfalse ∷ mfalse ∷ zs) (replicate-unfilled n))

-- The frame of the body, behind the rib.
pub menv_extend-frame :
    (r : Runtime) (rib parent : Mobj)
    → IsFresh r
    → (h : Addr → Option Object) × (n : ℕ) × (menv_extend rib parent r
        ≡ ok (typed r.ap) (record r { heap = h; ap = r.ap + n }))
      × (h r.ap ≡ some (slots env (rib ∷ parent ∷ [])))
      × (0 < n)
      × Extends r (record r { heap = h; ap = r.ap + n })
unfolding menv_extend typed_alloc gc_alloc
menv_extend-frame r rib parent fresh =
    let o = slots env (fixnum 0 ∷ fixnum 0 ∷ []) in
    let a = allocated o r in
    let pos : 0 < object_size o = unfold object_size vector_size align in omega arith in
    let x : Extends r a = alloc-Extends r o fresh pos in
    let s = write a r.ap (slots env (rib ∷ fixnum 0 ∷ [])) in
    let t = write s r.ap (slots env (rib ∷ parent ∷ [])) in
    let y : Extends r s = Extends-write r a r.ap _ x (omega arith) (omega (arith, pos)) in
    let z : Extends r t = Extends-write r s r.ap _ y (omega arith) (omega (arith, pos)) in
    (
      t.heap,
      object_size o,
      rw
          (
            set_slot a 0 rib (write_here r r.ap o) refl,
            set_slot s 1 parent (write_here a r.ap _) refl,
          )
          refl,
      write_here s r.ap _,
      pos,
      z,
    )
