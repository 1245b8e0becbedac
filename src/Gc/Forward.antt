-- ===== src/Gc/Forward.antt =====
-- src/gc.c, `forward_tagged`: the value of a slot in the new space.
use minim.Base.{
  ℕ, ◌+◌, ◌≤◌, ◌<◌, ◌≡◌, ◌⊎◌, inl, inr, refl, ◌∙◌, true, some, List, [], ◌∷◌, arith, Distinct,
}
use minim.Object.{Addr, Mobj, Object, object_size}
use minim.Gc.{
  Tag, tag_pair, tag_flonum, tag_symbol, tag_closure, tag_typed, Collector, ok, live, with_tag,
  object_tag, same_tag, copied, forward_cell, forward_tagged, forward_all,
}
use minim.Gc.Invariant.{
  Memory, spaces, In, Forwarded, AllForwarded, leaf, pointer, nil, cons, IsValue, AllValues, IsHeap,
  Moved, Inv,
}
use minim.Gc.Copy.{Inv-copied, Forwarded-copied, memory-p, memory_new}

pub same_tag_refl : (t : Tag) → same_tag t t ≡ true
same_tag_refl tag_pair = refl
same_tag_refl tag_flonum = refl
same_tag_refl tag_symbol = refl
same_tag_refl tag_closure = refl
same_tag_refl tag_typed = refl

-- Slots stay forwarded while each of them does.
pub AllForwarded-mono :
    {m m' : Memory} {ps : List Addr} {vs ws : List Mobj}
    → ((v w : Mobj) → Forwarded m ps v w → Forwarded m' ps v w)
    → AllForwarded m ps vs ws
    → AllForwarded m' ps vs ws
AllForwarded-mono keeps nil = nil
AllForwarded-mono keeps (cons f fs) = cons (keeps _ _ f) (AllForwarded-mono keeps fs)

module _ (ps : List Addr) (b : ℕ) where
  -- What a stretch of the collection that forwards slots leaves as it was.
  pub record Grows (g g' : Collector) : Type 0 where
    pub keeps : (v w : Mobj) → Forwarded g.memory ps v w → Forwarded g'.memory ps v w
    pub written : (q : Addr) → b ≤ q → q < g.ap → g'.memory q ≡ g.memory q
    pub bigger : g.ap ≤ g'.ap
    pub scan : g'.scan ≡ g.scan
    pub shadow_stack : g'.shadow_stack ≡ g.shadow_stack
    pub global_roots : g'.global_roots ≡ g.global_roots
    pub same_spaces : spaces g' ≡ spaces g

  pub Grows-refl : (g : Collector) → Grows g g
  Grows-refl g = record {
    keeps = λ v w f. f;
    written = λ q le lt. refl;
    bigger = omega arith;
    scan = refl;
    shadow_stack = refl;
    global_roots = refl;
    same_spaces = refl;
  }

  pub Grows-trans : {g g' g'' : Collector} → Grows g g' → Grows g' g'' → Grows g g''
  Grows-trans k l = record {
    keeps = λ v w f. l.keeps v w (k.keeps v w f);
    written = λ q le lt. l.written q le (omega (arith, k.bigger)) ∙ k.written q le lt;
    bigger = omega (arith, k.bigger, l.bigger);
    scan = l.scan ∙ k.scan;
    shadow_stack = l.shadow_stack ∙ k.shadow_stack;
    global_roots = l.global_roots ∙ k.global_roots;
    same_spaces = l.same_spaces ∙ k.same_spaces;
  }

pub Moved-size :
    {h : Memory} {ps : List Addr} {m : Memory}
    → IsHeap h ps
    → (p : Addr) (o : Object) (q : Addr) → Moved h ps m p o q
    → 16 ≤ object_size o
Moved-size heap p o q k =
    let (o', at_p, size, values) = heap p k.inside in
    let same : o' ≡ o = cc (at_p, k.old) in rw (← same) size

module _ {h : Memory} {ps : List Addr} {b total : ℕ} (distinct : Distinct ps)
    (outside : (p : Addr) → In p ps → (p < b) ⊎ (b + total ≤ p)) (heap : IsHeap h ps) where
  -- A slot is forwarded without a fault, and the invariant holds on.
  pub forward_tagged-Inv :
      {g : Collector} {v : Mobj}
      → Inv h ps b total g
      → IsValue h ps v
      → (w : Mobj) × (g' : Collector) × (forward_tagged v b g ≡ ok w g')
        × Inv h ps b total g'
        × Forwarded g'.memory ps v w
        × Grows ps b g g'
  unfolding forward_tagged forward_cell
  forward_tagged-Inv {g} {v} inv (leaf e) =
      (v, g, rw (e, forward_tagged) refl, inv, leaf e, Grows-refl ps b g)
  forward_tagged-Inv {g} {v} inv (pointer {p = p} {o = o} e inside old) =
      elim (inv.state p inside) [
        | inl same ↦
            let unmarked : g.memory p ≡ some (live o) = same ∙ old in
            let (o', at_p, size', values) = heap p inside in
            let same_object : o' ≡ o = cc (at_p, old) in
            let size : 16 ≤ object_size o = rw (← same_object) size' in
            let t = object_tag o in
            (
              with_tag t g.ap,
              copied t p o b g,
              rw (e, forward_tagged) (rw (unmarked, forward_cell) (rw (same_tag_refl t) refl)),
              Inv-copied distinct outside inv inside old size unmarked
                  (λ x y q k. Moved-size heap x y q k),
              pointer e inside (memory-p distinct outside inv inside old size unmarked),
              record {
                keeps = λ x y f. Forwarded-copied distinct outside inv inside old size unmarked f;
                written = memory_new distinct outside inv inside old size unmarked;
                bigger = omega arith;
                scan = refl;
                shadow_stack = refl;
                global_roots = refl;
                same_spaces = refl;
              },
            )
        | inr (o', q, k) ↦ (
          with_tag (object_tag o') q,
          g,
          rw (e, forward_tagged) (rw (k.marker, forward_cell) refl),
          inv,
          pointer e inside k.marker,
          Grows-refl ps b g,
        )
      ]

  pub forward_all-Inv :
      (vs : List Mobj) {g : Collector}
      → Inv h ps b total g
      → AllValues h ps vs
      → (ws : List Mobj) × (g' : Collector) × (forward_all vs b g ≡ ok ws g')
        × Inv h ps b total g'
        × AllForwarded g'.memory ps vs ws
        × Grows ps b g g'
  unfolding forward_all
  forward_all-Inv [] {g} inv k = ([], g, refl, inv, nil, Grows-refl ps b g)
  forward_all-Inv (v ∷ vs) {g} inv (k, ks) =
      let (w, g', done, inv', f, grown) = forward_tagged-Inv inv k in
      let (ws, g'', rest, inv'', fs, grown') = forward_all-Inv vs inv' ks in
      (
        w ∷ ws,
        g'',
        rw (done, rest) refl,
        inv'',
        cons (grown'.keeps v w f) fs,
        Grows-trans ps b grown grown',
      )
