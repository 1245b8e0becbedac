-- ===== src/Gc/Paths.antt =====
-- src/gc.c, `do_collect`: what the program reads by following slots, before and after a collection.
use mathlib.Core.Path.{subst}
use minim.Base.{
  ℕ, zero, suc, ◌+◌, ◌≤◌, ◌<◌, ◌≡◌, ◌⊎◌, inl, inr, refl, ap, ◌∙◌, some, none, Option, List, [], ◌∷◌,
  Distinct, get_elem?,
}
use minim.Object.{Addr, Mobj, Object, cons_cell, double, name, lambda, slots, str}
use minim.Gc.{Tag, Collector, ok, live, heap_pointer, object_tag, fields, with_fields, do_collect}
use minim.Gc.Invariant.{
  Memory, In, Forwarded, AllForwarded, leaf, pointer, nil, cons, IsValue, AllValues, IsHeap,
  unmoved,
}
use minim.Gc.Round.{heap_pointer-with_tag}
use minim.Gc.Collect.{Collected}
use minim.Gc.Graph.{object_at, Forwarded-leaf, Forwarded-Moved, Moved-copy, collected}

-- The value at the end of a path of slots.
unfoldable pub follow : Memory → List ℕ → Mobj → Option Mobj
follow m [] v = some v
follow m (i ∷ path) v = elim (object_at m v) [
  | none ↦ none
  | some o ↦ elim (get_elem? (fields o) i) [ none ↦ none | some x ↦ follow m path x ]
]

-- Both ends are missing, or a value of `h` has become the other.
pub data Agree (h m : Memory) (ps : List Addr) : Option Mobj → Option Mobj → Type 0 where
  neither : Agree h m ps none none
  both : {v w : Mobj} → IsValue h ps v → Forwarded m ps v w → Agree h m ps (some v) (some w)

pub fields-with_fields :
    {m : Memory} {ps : List Addr} (o : Object) {ys : List Mobj}
    → AllForwarded m ps (fields o) ys
    → fields (with_fields o ys) ≡ ys
fields-with_fields (cons_cell a d) (cons f (cons f' nil)) = refl
fields-with_fields (double d) nil = refl
fields-with_fields (name s) nil = refl
fields-with_fields (lambda p b e n) (cons f (cons f1 (cons f2 (cons f3 nil)))) = refl
fields-with_fields (slots sec xs) all = refl
fields-with_fields (str bs) nil = refl

AllForwarded-get_elem? :
    {m h : Memory} {ps : List Addr} {xs ys : List Mobj} (i : ℕ)
    → AllForwarded m ps xs ys
    → AllValues h ps xs
    → ((get_elem? xs i ≡ none) × (get_elem? ys i ≡ none))
      ⊎ ((x : Mobj) × (y : Mobj) × (get_elem? xs i ≡ some x)
          × (get_elem? ys i ≡ some y)
          × IsValue h ps x
          × Forwarded m ps x y)
AllForwarded-get_elem? i nil values = inl (refl, refl)
AllForwarded-get_elem? zero (cons {v = x} {w = y} f fs) (value, values) =
    inr (x, y, refl, refl, value, f)
AllForwarded-get_elem? (suc i) (cons f fs) (value, values) = AllForwarded-get_elem? i fs values

pub object_at_leaf : (m : Memory) (v : Mobj) → heap_pointer v ≡ none → object_at m v ≡ none
unfolding object_at
object_at_leaf m v e = rw (e, object_at) refl

pub object_at_pointer :
    (m : Memory) (v : Mobj) {t : Tag} {p : Addr} {o : Object}
    → heap_pointer v ≡ some (t, p)
    → m p ≡ some (live o)
    → object_at m v ≡ some o
unfolding object_at
object_at_pointer m v e at_p = rw (e, object_at) (rw at_p refl)

-- Paths lead to the same place in the old objects and in their copies.
pub follow-Collected :
    {ps : List Addr} {g g' : Collector}
    → IsHeap g.memory ps
    → Collected ps g g'
    → (path : List ℕ) (v w : Mobj) → IsValue g.memory ps v
    → Forwarded g'.memory ps v w
    → Agree g.memory g'.memory ps (follow g.memory path v) (follow g'.memory path w)
unfolding follow
follow-Collected heap c [] v w a f = both a f
follow-Collected {ps} {g} {g'} heap c (i ∷ path) v w (leaf e) f =
    let e' : heap_pointer w ≡ none = rw (← Forwarded-leaf e f) e in
    rw (object_at_leaf g.memory v e, object_at_leaf g'.memory w e', follow) neither
follow-Collected {ps} {g} {g'} heap c (i ∷ path) v w (pointer {p = p} {o = o} e inside old) f =
    let (q, k, at_q) = Forwarded-Moved c e old f in
    let (ys, copy, all) = Moved-copy heap c k in
    let (o', at_p, size, values) = heap p inside in
    let same : o' ≡ o = cc (at_p, old) in
    let e' : heap_pointer w ≡ some (object_tag o, q) =
      ap heap_pointer at_q ∙ heap_pointer-with_tag (object_tag o) q in
    rw
      (
        object_at_pointer g.memory v e old,
        object_at_pointer g'.memory w e' copy,
        fields-with_fields o all,
        follow,
      )
      (elim (AllForwarded-get_elem? i all
        (subst (λ z. AllValues g.memory ps (fields z)) same values)) [
          | inl (no_x, no_y) ↦ rw (no_x, no_y) neither
          | inr (x, y, at_x, at_y, value, f') ↦
              rw (at_x, at_y) (follow-Collected heap c path x y value f')
        ])

module _ (g g' : Collector) (ps : List Addr) (fuel : ℕ) (distinct : Distinct ps)
    (heap : IsHeap g.memory ps)
    (outside : (p : Addr) → In p ps → (p < g.to_base) ⊎ (g.to_base + unmoved g.memory ps ≤ p))
    (stack : AllValues g.memory ps g.shadow_stack) (others : AllValues g.memory ps g.global_roots)
    (enough : unmoved g.memory ps < fuel) (run : do_collect fuel g ≡ ok tt g') where
  -- After a collection from such a heap, a path of slots from the new value of a root or slot leads where
  -- it led from the old value: nowhere both times, or to a value and to what that value has become.
  pub do_collect-follow :
      (path : List ℕ) (v w : Mobj)
      → IsValue g.memory ps v
      → Forwarded g'.memory ps v w
      → Agree g.memory g'.memory ps (follow g.memory path v) (follow g'.memory path w)
  do_collect-follow =
      follow-Collected heap (collected g g' ps fuel distinct heap outside stack others enough run)
