-- ===== src/Gc/Collect.antt =====
-- src/gc.c, `do_collect`: the new space holds a copy of the graph that the roots reach.
use minim.Base.{
  ℕ, zero, suc, ◌+◌, ◌≤◌, ◌<◌, ◌≡◌, ◌⊎◌, inl, inr, refl, ◌∙◌, List, arith, Bool-cases, ltb, ltb→lt,
  Distinct,
}
use minim.Object.{Addr, Mobj, Object}
use minim.Gc.{Collector, ok, scan_loop, swapped, forward_roots, do_collect}
use minim.Gc.Invariant.{Memory, spaces, In, AllForwarded, AllValues, IsHeap, unmoved, Moved, Inv}
use minim.Gc.Forward.{AllForwarded-mono, forward_all-Inv}
use minim.Gc.Round.{Rounds, scan_object-Inv}

Rounds-refl : (ps : List Addr) (g : Collector) → Rounds ps g g
Rounds-refl ps g = record {
  keeps = λ v w f. f;
  shadow_stack = refl;
  global_roots = refl;
  same_spaces = refl;
}

Rounds-trans :
    (ps : List Addr) {g g' g'' : Collector} → Rounds ps g g' → Rounds ps g' g'' → Rounds ps g g''
Rounds-trans ps k l = record {
  keeps = λ v w f. l.keeps v w (k.keeps v w f);
  shadow_stack = l.shadow_stack ∙ k.shadow_stack;
  global_roots = l.global_roots ∙ k.global_roots;
  same_spaces = l.same_spaces ∙ k.same_spaces;
}

module _ {h : Memory} {ps : List Addr} {b total : ℕ} (distinct : Distinct ps)
    (outside : (p : Addr) → In p ps → (p < b) ⊎ (b + total ≤ p)) (heap : IsHeap h ps) where
  -- The scan pointer meets the allocation pointer.
  scan_loop-Inv :
      (fuel : ℕ) (g : Collector)
      → Inv h ps b total g
      → b + total < g.scan + fuel
      → (g' : Collector) × (scan_loop fuel g ≡ ok tt g')
        × Inv h ps b total g'
        × (g'.scan ≡ g'.ap)
        × Rounds ps g g'
  unfolding scan_loop
  scan_loop-Inv zero g inv enough = absurd (omega (arith, inv.order, inv.bytes))
  scan_loop-Inv (suc fuel) g inv enough = elim (Bool-cases (ltb g.scan g.ap)) [
    | inl more ↦
        let (g1, step, inv1, further, k) =
          scan_object-Inv distinct outside heap g inv (ltb→lt g.scan g.ap more) in
        let (g', rest, inv', end, l) = scan_loop-Inv fuel g1 inv1 (omega arith) in
        (g', rw (more, step, rest) refl, inv', end, Rounds-trans ps k l)
    | inr done ↦ (g, rw (done) refl, inv, ground (arith, inv.order), Rounds-refl ps g)
  ]

-- The invariant as the spaces are swapped: nothing is moved yet.
Inv-swapped :
    (g : Collector) (ps : List Addr)
    → IsHeap g.memory ps
    → Inv g.memory ps g.to_base (unmoved g.memory ps) (swapped g)
Inv-swapped g ps heap = record {
  base = refl;
  state = λ p inside. inl refl;
  placed = λ p o q k. absurd (none_moved p o q k);
  tagged = λ p o q k. absurd (none_moved p o q k);
  apart = λ p o q p' o' q' k k'. absurd (none_moved p o q k);
  next = λ p o q k. absurd (none_moved p o q k);
  grey = λ p o q k le. absurd (none_moved p o q k);
  black = λ p o q k lt. absurd (none_moved p o q k);
  cursor = inl refl;
  order = (omega arith, omega arith);
  bytes = refl;
}
  where
    none_moved : (p : Addr) (o : Object) (q : Addr) → Moved g.memory ps g.memory p o q → ⊥
    none_moved p o q k = cc (k.old, k.marker)

-- The invariant says nothing of the roots.
Inv-roots :
    {h : Memory} {ps : List Addr} {b total : ℕ} {g : Collector} (ss gs : List Mobj)
    → Inv h ps b total g
    → Inv h ps b total (record g { shadow_stack = ss; global_roots = gs })
Inv-roots ss gs inv = record {
  base = inv.base;
  state = inv.state;
  placed = inv.placed;
  tagged = inv.tagged;
  apart = inv.apart;
  next = inv.next;
  grey = inv.grey;
  black = inv.black;
  cursor = inv.cursor;
  order = inv.order;
  bytes = inv.bytes;
}

-- What a collection from `g` to `g'` leaves: `ps` are the objects that may be reached.
pub record Collected (ps : List Addr) (g g' : Collector) : Type 0 where
  pub invariant : Inv g.memory ps g.to_base (unmoved g.memory ps) g'
  pub scanned_all : g'.scan ≡ g'.ap
  pub stack_roots : AllForwarded g'.memory ps g.shadow_stack g'.shadow_stack
  pub same_spaces : spaces g' ≡ spaces (swapped g)
  pub other_roots : AllForwarded g'.memory ps g.global_roots g'.global_roots

module _ (g : Collector) (ps : List Addr) (distinct : Distinct ps) (heap : IsHeap g.memory ps)
    (outside : (p : Addr) → In p ps → (p < g.to_base) ⊎ (g.to_base + unmoved g.memory ps ≤ p))
    (stack : AllValues g.memory ps g.shadow_stack)
    (others : AllValues g.memory ps g.global_roots) where
  -- With fuel for the bytes of the old objects the collection ends.
  pub do_collect-Collected :
      (fuel : ℕ)
      → unmoved g.memory ps < fuel
      → (g' : Collector) × (do_collect fuel g ≡ ok tt g') × Collected ps g g'
  unfolding do_collect forward_roots
  do_collect-Collected fuel enough =
      let g0 = swapped g in
      let (ss, g1, run1, inv1, fs1, grown1) =
        forward_all-Inv distinct outside heap g.shadow_stack (Inv-swapped g ps heap) stack in
      let (gs, g2, run2, inv2, fs2, grown2) =
        forward_all-Inv distinct outside heap g.global_roots inv1 others in
      let g3 : Collector = record g2 { shadow_stack = ss; global_roots = gs } in
      let (g', run3, inv', end, k) =
        scan_loop-Inv distinct outside heap fuel g3 (Inv-roots ss gs inv2)
          (omega (arith, inv2.order)) in
      (
        g',
        rw (run1, run2, run3) refl,
        record {
          invariant = inv';
          scanned_all = end;
          stack_roots =
              rw k.shadow_stack (AllForwarded-mono (λ v w f. k.keeps v w (grown2.keeps v w f)) fs1);
          same_spaces = k.same_spaces ∙ grown2.same_spaces ∙ grown1.same_spaces;
          other_roots = rw k.global_roots (AllForwarded-mono k.keeps fs2);
        },
      )
