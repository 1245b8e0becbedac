-- ===== src/Prims/Registered.antt =====
-- src/prims.c, `prims_register_all`: the top-level environment that the program starts with.
use mathlib.Core.Path.{subst}
use minim.Base.{
  ℕ, zero, suc, ◌<◌, ◌≡◌, ◌≢◌, refl, sym, inl, inr, some, none, List, [], ◌∷◌, ◌++◌, arith, length,
  get_elem?, get_or, Bool-cases,
}
use minim.Object.{
  Addr, Mobj, mfixnum, typed, prim, pair, ◌=?◌, =?→eq, cons_cell, slots, object_size,
}
use minim.Runtime.{Runtime, PrimFn, ok, mtyped_obj_ref, typed_slots, load}
use minim.Runtime.Laws.{IsFresh, Keeps, Keeps-trans}
use minim.Alloc.Laws.{gc_alloc-Keeps, gc_alloc-IsFresh}
use minim.Symbol.Laws.{IsTable, Interned, Interned-Keeps, mintern_lem, mintern_globals}
use minim.Symbol.Search.{Named, Named-name, Named-Keeps, AllNamed, AllNamed-Keeps}
use minim.Eval.Env.TopLevel.{prepended, prepended-TopEnv, top_env_define-prepended, TopEnv-Keeps}
use minim.Eval.Env.Assoc.{TopEnv, assoc, TopEnv-mono}
use minim.Prims.Table.{Registration, register, prim_register}
use minim.Prims.Entry.{made, made_here, made-Keeps, made-IsFresh, mprim-made}

-- Each entry binds what the intern table gives for a registration's name, a symbol with that name, to a
-- primitive with that symbol, the arities and the index of the C function.
pub data Bound (r : Runtime) : List (Mobj × Mobj) → List Registration → Type 0 where
  none_yet : Bound r [] []
  one_more :
      {k : Mobj} {q : Addr} {xs : List (Mobj × Mobj)} {e : Registration} {es : List Registration}
      (idx : ℕ)
      → Named r e.name k
      → Interned r e.name k
      → r.heap q
        ≡ some (slots prim (k ∷ mfixnum e.arity_min ∷ mfixnum e.arity_max ∷ mfixnum idx ∷ []))
      → get_elem? r.prim_fn_table idx ≡ some e.fn
      → Bound r xs es
      → Bound r ((k, typed q) ∷ xs) (e ∷ es)

get_elem?-append :
    (fns more : List PrimFn) (i : ℕ) {fn : PrimFn}
    → get_elem? fns i ≡ some fn
    → get_elem? (fns ++ more) i ≡ some fn
get_elem?-append [] more i h = absurd cc
get_elem?-append (f ∷ fns) more zero h = h
get_elem?-append (f ∷ fns) more (suc i) h = get_elem?-append fns more i h

get_elem?-end :
    (fns : List PrimFn) (fn : PrimFn) → get_elem? (fns ++ fn ∷ []) (length fns) ≡ some fn
get_elem?-end [] fn = refl
get_elem?-end (f ∷ fns) fn = get_elem?-end fns fn

Bound-Keeps :
    {r s : Runtime} {xs : List (Mobj × Mobj)} {es : List Registration}
    → Keeps r s
    → ((u : List ℕ) (w : Mobj) → Interned r u w → Interned s u w)
    → ((i : ℕ) (fn : PrimFn)
        → get_elem? r.prim_fn_table i ≡ some fn
        → get_elem? s.prim_fn_table i ≡ some fn)
    → Bound r xs es
    → Bound s xs es
Bound-Keeps k stable more none_yet = none_yet
Bound-Keeps k stable more (one_more {q = q} idx n i h f rest) =
    one_more idx (Named-Keeps k n) (stable _ _ i) (k q _ h) (more _ _ f)
      (Bound-Keeps k stable more rest)

-- None of the registrations has the name.
abbrev pub AllOther : List ℕ → List Registration → Type 0
AllOther s [] = Unit {0}
AllOther s (e ∷ es) = (e.name ≢ s) × AllOther s es

abbrev pub AllFresh : List Registration → List Registration → Type 0
AllFresh [] before = Unit {0}
AllFresh (e ∷ es) before = AllOther e.name before × AllFresh es (e ∷ before)

same_name : (r : Runtime) {s u : List ℕ} {k : Mobj} → Named r s k → Named r u k → s ≡ u
same_name r n m = let one = Named-name n in let two = Named-name m in cc

-- A symbol of another name is not bound.
assoc-Bound :
    {r : Runtime} {xs : List (Mobj × Mobj)} {es : List Registration} {s : List ℕ} {k : Mobj}
    → Bound r xs es
    → Named r s k
    → AllOther s es
    → assoc k xs ≡ none
unfolding assoc
assoc-Bound none_yet n other = refl
assoc-Bound {r} {k = k} (one_more {k = k'} {xs = xs} {e = e} idx n' i h f rest) n (differs, other) =
    elim (Bool-cases (k' =? k)) [
      | inl same ↦
          absurd (differs (same_name r (subst (λ x. Named r e.name x) (=?→eq k' k same) n') n))
      | inr apart ↦ rw (apart) (assoc-Bound rest n other)
    ]

-- The table and the environment while the primitives are registered.
pub record SetUp (r : Runtime) (xs : List (Mobj × Mobj)) (es : List Registration) : Type 0 where
  pub table : IsTable r
  pub env : TopEnv r r.ap r.top_level_env xs
  pub bound : Bound r xs es

pub IsTable-Keeps :
    {r : Runtime} (s : Runtime)
    → IsTable r
    → Keeps r s
    → IsFresh s
    → s.intern_table ≡ r.intern_table
    → IsTable s
IsTable-Keeps {r} s t k fresh same = record {
  fresh = fresh;
  size = subst (λ b. 0 < length b) (sym same) t.size;
  buckets = λ i.
      subst (λ b. AllNamed s (get_or b i [])) (sym same) (AllNamed-Keeps r s _ k (t.buckets i));
}

name_back :
    (r : Runtime) (q : Addr) (k : Mobj) (rest : List Mobj)
    → r.heap q ≡ some (slots prim (k ∷ rest))
    → mtyped_obj_ref (typed q) 0 r ≡ ok k r
unfolding mtyped_obj_ref typed_slots
name_back r q k rest h = rw (h, load) refl

prepended-Keeps :
    (r : Runtime) (k w : Mobj) → IsFresh r → Keeps r (prepended r k w) × IsFresh (prepended r k w)
unfolding object_size
prepended-Keeps r k w fresh =
    let one = gc_alloc-IsFresh (cons_cell k w) fresh (omega arith) in
    let two = gc_alloc-IsFresh (cons_cell (pair r.ap) r.top_level_env) one (omega arith) in
    (
      λ p o h.
          gc_alloc-Keeps (cons_cell (pair r.ap) r.top_level_env) one p o
            (gc_alloc-Keeps (cons_cell k w) fresh p o h),
      record { unused = two.unused },
    )

module _ {r : Runtime} {xs : List (Mobj × Mobj)} {es : List Registration} (e : Registration)
    (k : SetUp r xs es) (other : AllOther e.name es) where
  -- One registration adds its entry.
  pub register-SetUp :
      (s : Runtime) × (sym_of : Mobj) × (q : Addr) × (register e r ≡ ok tt s)
      × SetUp s ((sym_of, typed q) ∷ xs) (e ∷ es)
  unfolding prim_register
  register-SetUp =
      let (v, t, done, n, table, keeps, interned, stable) = mintern_lem e.name k.table in
      let (same_env, same_fns, grows) = mintern_globals e.name k.table done in
      let idx = length t.prim_fn_table in
      let u = made t e.fn v (mfixnum e.arity_min) (mfixnum e.arity_max) (mfixnum idx) in
      let here = made_here t e.fn v (mfixnum e.arity_min) (mfixnum e.arity_max) (mfixnum idx) in
      let keeps_u =
        made-Keeps t e.fn v (mfixnum e.arity_min) (mfixnum e.arity_max) (mfixnum idx) table.fresh in
      let fresh_u =
        made-IsFresh t e.fn v (mfixnum e.arity_min) (mfixnum e.arity_max) (mfixnum idx)
          table.fresh in
      let s = prepended u v (typed t.ap) in
      let (keeps_s, fresh_s) = prepended-Keeps u v (typed t.ap) fresh_u in
      let bound_t =
        Bound-Keeps {s = t} keeps stable
          (λ i fn h. subst (λ f. get_elem? f i ≡ some fn) (sym same_fns) h) k.bound in
      let stable_u = Interned-Keeps u table keeps_u refl in
      let table_u = IsTable-Keeps u table keeps_u fresh_u refl in
      let stable_s = Interned-Keeps s table_u keeps_s refl in
      let bound_u =
        Bound-Keeps {s = u} keeps_u stable_u
          (λ i fn h. get_elem?-append t.prim_fn_table (e.fn ∷ []) i h) bound_t in
      let bound_s = Bound-Keeps {s = s} keeps_s stable_s (λ i fn h. h) bound_u in
      let env_t : TopEnv t t.ap t.top_level_env xs =
        subst (λ p. TopEnv t t.ap p xs) (sym same_env)
          (TopEnv-mono (TopEnv-Keeps t keeps k.env) grows) in
      let env_u : TopEnv u u.ap u.top_level_env xs =
        TopEnv-mono (TopEnv-Keeps u keeps_u env_t) (unfold object_size in omega arith) in
      let unbound = assoc-Bound bound_u (Named-Keeps {t = u} keeps_u n) other in
      (
        s,
        v,
        t.ap,
        rw (mprim-made e.name e.fn e.arity_min e.arity_max r done, name_back u t.ap v _ here)
            (top_env_define-prepended v (typed t.ap) env_u unbound),
        record {
          table = IsTable-Keeps s table (Keeps-trans t u s keeps_u keeps_s) fresh_s refl;
          env = prepended-TopEnv u v (typed t.ap) env_u;
          bound =
              one_more idx (Named-Keeps {t = s} keeps_s (Named-Keeps {t = u} keeps_u n))
                (stable_s _ _ (stable_u _ _ interned)) (keeps_s t.ap _ here)
                (get_elem?-end t.prim_fn_table e.fn) bound_s;
        },
      )
