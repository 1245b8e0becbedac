-- ===== src/Gc/Graph.antt =====
-- src/gc.c, `do_collect`: the objects as the program reaches them, before and after a collection.
use mathlib.Core.Path.{subst}
use minim.Base.{
  ℕ, ◌+◌, ◌≤◌, ◌<◌, ◌≡◌, ◌⊎◌, inl, inr, refl, sym, ap, ◌∙◌, some, none, Option, List, arith,
  Distinct,
}
use minim.Object.{
  Addr, Mobj, fixnum, mfalse, mtrue, mnull, mvoid, meof, char, pair, flonum, symbol, closure, typed,
  Object, object_size,
}
use minim.Gc.{
  Tag, tag_pair, tag_flonum, tag_symbol, tag_closure, tag_typed, Collector, ok, live, forwarded,
  heap_pointer, with_tag, object_tag, fields, with_fields, do_collect,
}
use minim.Gc.Invariant.{
  Memory, In, Forwarded, AllForwarded, leaf, pointer, IsValue, AllValues, IsHeap, unmoved, Moved,
}
use minim.Gc.Forward.{Moved-size}
use minim.Gc.Round.{heap_pointer-with_tag}
use minim.Gc.Collect.{Collected, do_collect-Collected}

abbrev at : Tag → Addr → Option (Tag × Addr)
at t p = some (t, p)

tag_of :
    (t' : Tag) (p' : Addr) {t : Tag} {p : Addr} → at t' p' ≡ at t p → with_tag t' p' ≡ with_tag t p
tag_of t' p' {t} {p} e =
    let same_t : t' ≡ t = cc in let same_p : p' ≡ p = cc in rw (same_t, same_p) refl

head_of : {t t' : Tag} {p p' : Addr} → at t p ≡ at t' p' → t ≡ t'
head_of e = cc

tail_of : {t t' : Tag} {p p' : Addr} → at t p ≡ at t' p' → p ≡ p'
tail_of e = cc

pub with_tag_of : (v : Mobj) {t : Tag} {p : Addr} → heap_pointer v ≡ some (t, p) → v ≡ with_tag t p
with_tag_of (fixnum n) e = absurd cc
with_tag_of mfalse e = absurd cc
with_tag_of mtrue e = absurd cc
with_tag_of mnull e = absurd cc
with_tag_of mvoid e = absurd cc
with_tag_of meof e = absurd cc
with_tag_of (char c) e = absurd cc
with_tag_of (pair p) e = tag_of tag_pair p e
with_tag_of (flonum p) e = tag_of tag_flonum p e
with_tag_of (symbol p) e = tag_of tag_symbol p e
with_tag_of (closure p) e = tag_of tag_closure p e
with_tag_of (typed p) e = tag_of tag_typed p e

-- The object a pointer leads to.
unfoldable pub object_at : Memory → Mobj → Option Object
object_at m v = elim (heap_pointer v) [
  | none ↦ none
  | some (t, p) ↦ elim (m p) [ some (live o) ↦ some o | _ ↦ none ]
]

-- A forwarded value is a leaf on both sides, or leads to an object that has been moved.
pub Forwarded-Moved :
    {ps : List Addr} {g g' : Collector} {v w : Mobj} {p : Addr} {o : Object}
    → Collected ps g g'
    → heap_pointer v ≡ some (object_tag o, p)
    → g.memory p ≡ some (live o)
    → Forwarded g'.memory ps v w
    → (q : Addr) × Moved g.memory ps g'.memory p o q × (w ≡ with_tag (object_tag o) q)
Forwarded-Moved c e old (leaf e') = absurd cc
Forwarded-Moved {ps} {g} {g'} {v} {w} {p} {o} c e old (pointer {p = x} e' inside f) =
    let same : x ≡ p = cc (e, e') in
    let marker : g'.memory p ≡ some (forwarded w) =
      subst (λ y. g'.memory y ≡ some (forwarded w)) same f in
    let inside_p : In p ps = subst (λ y. In y ps) same inside in
    elim (c.invariant.state p inside_p) [
      | inl still ↦ absurd (cc (still, old, marker))
      | inr (o', q, k) ↦
          let same_object : o' ≡ o = cc (k.old, old) in
          (
            q,
            subst (λ z. Moved g.memory ps g'.memory p z q) same_object k,
            subst (λ z. w ≡ with_tag (object_tag z) q) same_object (cc (marker, k.marker)),
          )
    ]

pub Forwarded-leaf :
    {m : Memory} {ps : List Addr} {v w : Mobj} → heap_pointer v ≡ none → Forwarded m ps v w → v ≡ w
Forwarded-leaf e (leaf e') = refl
Forwarded-leaf e (pointer e' inside f) = absurd cc

-- A moved object stands in the new space with forwarded slots.
pub Moved-copy :
    {ps : List Addr} {g g' : Collector} {p : Addr} {o : Object} {q : Addr}
    → IsHeap g.memory ps
    → Collected ps g g'
    → Moved g.memory ps g'.memory p o q
    → (ys : List Mobj) × (g'.memory q ≡ some (live (with_fields o ys)))
      × AllForwarded g'.memory ps (fields o) ys
Moved-copy {ps} {g} {g'} {p} {o} {q} heap c k =
    let (o', at_p, size', values) = heap p k.inside in
    let same : o' ≡ o = cc (at_p, k.old) in
    let size : 16 ≤ object_size o = rw (← same) size' in
    let bounds = c.invariant.placed p o q k in
    c.invariant.black p o q k (omega (arith, c.scanned_all))

leaf_apart : (v : Mobj) (t : Tag) (q : Addr) → heap_pointer v ≡ none → v ≡ with_tag t q → ⊥
leaf_apart v t q e same =
    let tagged : heap_pointer v ≡ some (t, q) = ap heap_pointer same ∙ heap_pointer-with_tag t q in
    cc

module _ (g g' : Collector) (ps : List Addr) (fuel : ℕ) (distinct : Distinct ps)
    (heap : IsHeap g.memory ps)
    (outside : (p : Addr) → In p ps → (p < g.to_base) ⊎ (g.to_base + unmoved g.memory ps ≤ p))
    (stack : AllValues g.memory ps g.shadow_stack) (others : AllValues g.memory ps g.global_roots)
    (enough : unmoved g.memory ps < fuel) (run : do_collect fuel g ≡ ok tt g') where
  pub collected : Collected ps g g'
  collected =
      let (g1, run1, c) =
        do_collect-Collected g ps distinct heap outside stack others fuel enough in
      let same : g1 ≡ g' = cc (run, run1) in subst (λ x. Collected ps g x) same c

  -- After a collection from such a heap, a pointer to an old object has become a pointer, under the same
  -- tag, to a copy in the new space: the object with the same contents and with each of its slots
  -- forwarded, from the start of the new space up to the allocation pointer.
  pub do_collect-Forwarded :
      (v w : Mobj) (p : Addr) (o : Object)
      → heap_pointer v ≡ some (object_tag o, p)
      → g.memory p ≡ some (live o)
      → Forwarded g'.memory ps v w
      → (q : Addr) × (ys : List Mobj) × (w ≡ with_tag (object_tag o) q)
        × (g'.memory q ≡ some (live (with_fields o ys)))
        × AllForwarded g'.memory ps (fields o) ys
        × (g.to_base ≤ q)
        × (q + object_size o ≤ g'.ap)
  do_collect-Forwarded v w p o e old f =
      let (q, k, at_q) = Forwarded-Moved collected e old f in
      let (ys, copy, all) = Moved-copy heap collected k in
      let (low, high) = collected.invariant.placed p o q k in (q, ys, at_q, copy, all, low, high)

  -- After a collection from such a heap, two values that have become the same value were the same: a
  -- copy stands for one object, so that `eq?` answers as before.
  pub do_collect-injective :
      (v v' w : Mobj)
      → IsValue g.memory ps v
      → IsValue g.memory ps v'
      → Forwarded g'.memory ps v w
      → Forwarded g'.memory ps v' w
      → v ≡ v'
  do_collect-injective v v' w (leaf e) (leaf e') f f' =
      Forwarded-leaf e f ∙ sym (Forwarded-leaf e' f')
  do_collect-injective v v' w (leaf e) (pointer {p = p} {o = o} e' inside old) f f' =
      let (q, k, at_q) = Forwarded-Moved collected e' old f' in
      absurd (leaf_apart v (object_tag o) q e (Forwarded-leaf e f ∙ at_q))
  do_collect-injective v v' w (pointer {p = p} {o = o} e inside old) (leaf e') f f' =
      let (q, k, at_q) = Forwarded-Moved collected e old f in
      absurd (leaf_apart v' (object_tag o) q e' (Forwarded-leaf e' f' ∙ at_q))
  do_collect-injective v v' w (pointer {p = p} {o = o} e inside old)
        (pointer {p = p'} {o = o'} e' inside' old') f f' =
      let (q, k, at_q) = Forwarded-Moved collected e old f in
      let (q', k', at_q') = Forwarded-Moved collected e' old' f' in
      let same_pointer : at (object_tag o) q ≡ at (object_tag o') q' =
        sym (heap_pointer-with_tag (object_tag o) q)
        ∙ ap heap_pointer (sym at_q ∙ at_q')
        ∙ heap_pointer-with_tag (object_tag o') q' in
      let same_q : q ≡ q' = tail_of same_pointer in
      let same_tag : object_tag o ≡ object_tag o' = head_of same_pointer in
      let size = Moved-size heap p o q k in
      let size' = Moved-size heap p' o' q' k' in
      elim (collected.invariant.apart p o q p' o' q' k k') [
        | inl same ↦
            with_tag_of v e ∙ (λ i. with_tag (same_tag i) (same i)) ∙ sym (with_tag_of v' e')
        | inr (inl before) ↦ absurd (omega arith)
        | inr (inr after) ↦ absurd (omega arith)
      ]

-- With fuel for the bytes of the old objects a collection ends without a fault, with every root
-- forwarded and every copy scanned, and the copies take no more bytes than the old objects did.
pub do_collect-roots :
    (g : Collector) (ps : List Addr) (fuel : ℕ)
    → Distinct ps
    → IsHeap g.memory ps
    → ((p : Addr) → In p ps → (p < g.to_base) ⊎ (g.to_base + unmoved g.memory ps ≤ p))
    → AllValues g.memory ps g.shadow_stack
    → AllValues g.memory ps g.global_roots
    → unmoved g.memory ps < fuel
    → (g' : Collector) × (do_collect fuel g ≡ ok tt g')
      × AllForwarded g'.memory ps g.shadow_stack g'.shadow_stack
      × AllForwarded g'.memory ps g.global_roots g'.global_roots
      × (g'.scan ≡ g'.ap)
      × (g'.ap ≤ g.to_base + unmoved g.memory ps)
do_collect-roots g ps fuel distinct heap outside stack others enough =
    let (g', run, c) = do_collect-Collected g ps distinct heap outside stack others fuel enough in
    (g', run, c.stack_roots, c.other_roots, c.scanned_all, omega (arith, c.invariant.bytes))
