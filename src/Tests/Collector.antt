-- ===== src/Tests/Collector.antt =====
-- The theorems on the collector at a heap of three reachable objects, two of them in a cycle, and a
-- string that nothing reaches.
use mathlib.Core.Path.{subst}
use minim.Base.{
  ◌+◌, ◌≤◌, ◌<◌, ◌≡◌, ◌⊎◌, inl, inr, refl, sym, none, some, List, [], ◌∷◌, arith, Distinct,
}
use minim.Object.{
  Addr, Mobj, fixnum, pair, typed, Object, cons_cell, slots, str, vector, object_size,
}
use minim.Gc.{
  Collector, Cell, live, forwarded, Outcome, ok, fault, update, do_collect, fields, heap_pointer,
  object_tag, with_tag, with_fields,
}
use minim.Gc.Invariant.{
  Memory, In, Forwarded, AllForwarded, IsValue, AllValues, IsHeap, unmoved, leaf, pointer,
}
use minim.Gc.Graph.{do_collect-Forwarded, do_collect-injective, do_collect-roots}
use minim.Gc.Paths.{Agree, follow, do_collect-follow}

abbrev pub old_memory : Memory
old_memory =
    update
      (update
        (update (update (λ p. none) 4096 (live (cons_cell (fixnum 7) (typed 4112)))) 4112
          (live (slots vector (pair 4128 ∷ []))))
        4128 (live (cons_cell (pair 4096) (typed 4112))))
      4144 (live (str (65 ∷ 66 ∷ [])))

abbrev pub old : Collector
old = record {
  memory = old_memory;
  from_base = 4096;
  from_end = 8192;
  to_base = 8192;
  to_end = 12288;
  ap = 4160;
  scan = 4096;
  space_bytes = 4096;
  scan_tags = λ i. none;
  shadow_stack = pair 4128 ∷ fixnum 3 ∷ [];
  global_roots = pair 4096 ∷ pair 4128 ∷ [];
}

abbrev pub places : List Addr
places = 4096 ∷ 4112 ∷ 4128 ∷ 4144 ∷ []

abbrev pub at_4096 : IsValue old_memory places (pair 4096)
at_4096 = pointer refl (inl refl) refl

abbrev pub at_4112 : IsValue old_memory places (typed 4112)
at_4112 = pointer refl (inr (inl refl)) refl

abbrev pub at_4128 : IsValue old_memory places (pair 4128)
at_4128 = pointer refl (inr (inr (inl refl))) refl

abbrev IsObject : Addr → Type 0
IsObject p =
    (o : Object) × (old_memory p ≡ some (live o))
    × (16 ≤ object_size o)
    × AllValues old_memory places (fields o)

pub old-IsHeap : IsHeap old_memory places
unfolding object_size
old-IsHeap p (inl e) =
    subst IsObject (sym e)
      (cons_cell (fixnum 7) (typed 4112), refl, omega arith, (leaf refl, (at_4112, tt)))
old-IsHeap p (inr (inl e)) =
    subst IsObject (sym e) (slots vector (pair 4128 ∷ []), refl, omega arith, (at_4128, tt))
old-IsHeap p (inr (inr (inl e))) =
    subst IsObject (sym e)
      (cons_cell (pair 4096) (typed 4112), refl, omega arith, (at_4096, (at_4112, tt)))
old-IsHeap p (inr (inr (inr (inl e)))) =
    subst IsObject (sym e) (str (65 ∷ 66 ∷ []), refl, omega arith, tt)
old-IsHeap p (inr (inr (inr (inr k)))) = absurd k

pub old-Distinct : Distinct places
old-Distinct = (
  (λ e. absurd (omega arith), (λ e. absurd (omega arith), (λ e. absurd (omega arith), tt))),
  (
    (λ e. absurd (omega arith), (λ e. absurd (omega arith), tt)),
    ((λ e. absurd (omega arith), tt), (tt, tt)),
  ),
)

pub old-unmoved : unmoved old_memory places ≡ 64
unfolding object_size
old-unmoved = refl

old_below : (p : Addr) → In p places → (p < 8192) ⊎ (8192 + unmoved old_memory places ≤ p)
old_below p (inl e) = inl (omega arith)
old_below p (inr (inl e)) = inl (omega arith)
old_below p (inr (inr (inl e))) = inl (omega arith)
old_below p (inr (inr (inr (inl e)))) = inl (omega arith)
old_below p (inr (inr (inr (inr k)))) = absurd k

abbrev end_of : Outcome (Unit {0}) → Collector
end_of (ok x g) = g
end_of _ = old

abbrev collected_state : Collector
collected_state = end_of (do_collect 65 old)

runs : do_collect 65 old ≡ ok tt collected_state
unfolding do_collect minim.Gc.forward_roots minim.Gc.forward_all minim.Gc.forward_tagged
    minim.Gc.forward_cell object_size minim.Gc.scan_loop minim.Gc.scan_object minim.Gc.live_at
    minim.Gc.scan_live minim.Gc.scan_fields
runs = refl

do_collect-roots_example :
    (g' : Collector) × (do_collect 65 old ≡ ok tt g')
    × AllForwarded g'.memory places (pair 4128 ∷ fixnum 3 ∷ []) g'.shadow_stack
    × AllForwarded g'.memory places (pair 4096 ∷ pair 4128 ∷ []) g'.global_roots
    × (g'.scan ≡ g'.ap)
    × (g'.ap ≤ 8192 + unmoved old_memory places)
do_collect-roots_example =
    do_collect-roots old places 65 old-Distinct old-IsHeap old_below (at_4128, (leaf refl, tt))
      (at_4096, (at_4128, tt)) (omega (arith, old-unmoved))

moved_4096 : Forwarded collected_state.memory places (pair 4096) (pair 8208)
unfolding do_collect minim.Gc.forward_roots minim.Gc.forward_all minim.Gc.forward_tagged
    minim.Gc.forward_cell object_size minim.Gc.scan_loop minim.Gc.scan_object minim.Gc.live_at
    minim.Gc.scan_live minim.Gc.scan_fields
moved_4096 = pointer refl (inl refl) refl

do_collect-Forwarded_example :
    (q : Addr) × (ys : List Mobj) × (pair 8208 ≡ pair q)
    × (collected_state.memory q ≡ some (live (with_fields (cons_cell (fixnum 7) (typed 4112)) ys)))
    × AllForwarded collected_state.memory places (fixnum 7 ∷ typed 4112 ∷ []) ys
    × (8192 ≤ q)
    × (q + object_size (cons_cell (fixnum 7) (typed 4112)) ≤ collected_state.ap)
do_collect-Forwarded_example =
    do_collect-Forwarded old collected_state places 65 old-Distinct old-IsHeap old_below
      (at_4128, (leaf refl, tt)) (at_4096, (at_4128, tt)) (omega (arith, old-unmoved)) runs
      (pair 4096) (pair 8208) 4096 (cons_cell (fixnum 7) (typed 4112)) refl refl moved_4096

do_collect-injective_example : pair 4096 ≡ pair 4096
do_collect-injective_example =
    do_collect-injective old collected_state places 65 old-Distinct old-IsHeap old_below
      (at_4128, (leaf refl, tt)) (at_4096, (at_4128, tt)) (omega (arith, old-unmoved)) runs
      (pair 4096) (pair 4096) (pair 8208) at_4096 at_4096 moved_4096 moved_4096

do_collect-follow_example :
    Agree old_memory collected_state.memory places
      (follow old_memory (1 ∷ 0 ∷ []) (pair 4096))
      (follow collected_state.memory (1 ∷ 0 ∷ []) (pair 8208))
do_collect-follow_example =
    do_collect-follow old collected_state places 65 old-Distinct old-IsHeap old_below
      (at_4128, (leaf refl, tt)) (at_4096, (at_4128, tt)) (omega (arith, old-unmoved)) runs
      (1 ∷ 0 ∷ []) (pair 4096) (pair 8208) at_4096 moved_4096
