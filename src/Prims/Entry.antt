-- ===== src/Prims/Entry.antt =====
-- src/alloc.c, `Mprim`: the object of a primitive.
use minim.Base.{
  ℕ, ◌≡◌, ◌≢◌, refl, ◌∙◌, some, List, [], ◌∷◌, ◌++◌, arith, length, get_elem?, set, ==_refl, ==_ne,
  replicate,
}
use minim.Object.{Addr, Mobj, fixnum, mfixnum, typed, prim, Object, slots, object_size}
use minim.Runtime.{Runtime, PrimFn, ok, pure, write, load, set_slot_of, ◌>>=◌, ◌>>◌, mtyped_obj_set}
use minim.Runtime.Laws.{IsFresh, Keeps}
use minim.Alloc.{typed_alloc, gc_alloc}
use minim.Alloc.Laws.{allocated}
use minim.Symbol.{mintern}
use minim.Prims.Table.{prim_fn_register, mprim}

mtyped_obj_set-prim :
    (r : Runtime) (q : Addr) (ys : List Mobj) (i : ℕ) (x y : Mobj)
    → r.heap q ≡ some (slots prim ys)
    → get_elem? ys i ≡ some y
    → mtyped_obj_set (typed q) i x r ≡ ok tt (write r q (slots prim (set ys i x)))
unfolding mtyped_obj_set
mtyped_obj_set-prim r q ys i x y h k = rw (h, load) (rw (k, set_slot_of) refl)

module _ (t : Runtime) (fn : PrimFn) (a b c d : Mobj) where
  abbrev zeros : Object
  zeros = slots prim (replicate 4 (fixnum 0))

  abbrev w0 : Runtime
  w0 = allocated zeros (record t { prim_fn_table = t.prim_fn_table ++ fn ∷ [] })

  abbrev w1 : Runtime
  w1 = write w0 t.ap (slots prim (a ∷ fixnum 0 ∷ fixnum 0 ∷ fixnum 0 ∷ []))

  abbrev w2 : Runtime
  w2 = write w1 t.ap (slots prim (a ∷ b ∷ fixnum 0 ∷ fixnum 0 ∷ []))

  abbrev w3 : Runtime
  w3 = write w2 t.ap (slots prim (a ∷ b ∷ c ∷ fixnum 0 ∷ []))

  -- The state with the primitive at the address that was free.
  abbrev pub made : Runtime
  made = write w3 t.ap (slots prim (a ∷ b ∷ c ∷ d ∷ []))

  pub made_here : made.heap t.ap ≡ some (slots prim (a ∷ b ∷ c ∷ d ∷ []))
  made_here = rw (==_refl t.ap) refl

  made_else : (p : Addr) → t.ap ≢ p → made.heap p ≡ t.heap p
  made_else p k = rw (==_ne t.ap p k) refl

  pub made-Keeps : IsFresh t → Keeps t made
  made-Keeps fresh p o h =
      made_else p (λ same. absurd (cc (fresh.unused t.ap (omega arith), h, same))) ∙ h

  pub made-IsFresh : IsFresh t → IsFresh made
  unfolding object_size
  made-IsFresh fresh = record {
    unused = λ p le. made_else p (λ same. absurd (omega arith)) ∙ fresh.unused p (omega arith);
  }

  steps :
      (do
        v ← typed_alloc 4 prim
        mtyped_obj_set v 0 a
        mtyped_obj_set v 1 b
        mtyped_obj_set v 2 c
        mtyped_obj_set v 3 d
        pure v)
        (record t { prim_fn_table = t.prim_fn_table ++ fn ∷ [] })
      ≡ ok (typed t.ap) made
  unfolding typed_alloc gc_alloc
  steps =
      rw
        (
          mtyped_obj_set-prim w0 t.ap (replicate 4 (fixnum 0)) 0 a (fixnum 0)
              (rw (==_refl t.ap) refl) refl,
          mtyped_obj_set-prim w1 t.ap (a ∷ fixnum 0 ∷ fixnum 0 ∷ fixnum 0 ∷ []) 1 b (fixnum 0)
              (rw (==_refl t.ap) refl) refl,
          mtyped_obj_set-prim w2 t.ap (a ∷ b ∷ fixnum 0 ∷ fixnum 0 ∷ []) 2 c (fixnum 0)
              (rw (==_refl t.ap) refl) refl,
          mtyped_obj_set-prim w3 t.ap (a ∷ b ∷ c ∷ fixnum 0 ∷ []) 3 d (fixnum 0)
              (rw (==_refl t.ap) refl) refl,
        )
        refl

-- After its name is interned, `Mprim` makes the primitive at the next address.
pub mprim-made :
    (s : List ℕ) (fn : PrimFn) (lo hi : ℕ) (r : Runtime) {t : Runtime} {k : Mobj}
    → mintern s r ≡ ok k t
    → mprim s fn lo hi r
      ≡ ok (typed t.ap) (made t fn k (mfixnum lo) (mfixnum hi) (mfixnum (length t.prim_fn_table)))
unfolding mprim prim_fn_register
mprim-made s fn lo hi r {t} {k} done =
    rw (done) (steps t fn k (mfixnum lo) (mfixnum hi) (mfixnum (length t.prim_fn_table)))
