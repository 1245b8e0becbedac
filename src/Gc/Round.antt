-- ===== src/Gc/Round.antt =====
-- src/gc.c: one round of the scan loop of `do_collect`.
use mathlib.Core.Path.{subst}
use minim.Base.{
  ℕ, ◌+◌, ◌≤◌, ◌<◌, ◌≡◌, ◌⊎◌, inl, inr, refl, sym, ap, ◌∙◌, false, some, List, arith, ltb, Distinct,
}
use minim.Object.{Addr, Mobj, Object, object_size}
use minim.Gc.{
  Tag, tag_pair, tag_flonum, tag_symbol, tag_closure, tag_typed, Collector, ok, live, forwarded,
  heap_pointer, with_tag, object_tag, fields, with_fields, tag_index, update, live_at, forward_all,
  scan_fields, scan_live, scan_tag_get, scan_object,
}
use minim.Gc.Invariant.{Memory, spaces, In, Forwarded, leaf, pointer, AllValues, IsHeap, Moved, Inv}
use minim.Gc.Forward.{same_tag_refl, forward_all-Inv, Moved-size}
use minim.Gc.Scan.{scanned, Forwarded-scanned, Inv-scanned}

ltb_refl : (n : ℕ) → ltb n n ≡ false
ltb_refl n = ground arith

pub heap_pointer-with_tag : (t : Tag) (p : Addr) → heap_pointer (with_tag t p) ≡ some (t, p)
heap_pointer-with_tag tag_pair p = refl
heap_pointer-with_tag tag_flonum p = refl
heap_pointer-with_tag tag_symbol p = refl
heap_pointer-with_tag tag_closure p = refl
heap_pointer-with_tag tag_typed p = refl

-- What is forwarded through a pointer to `p` is what the marker at `p` says.
pub still :
    {m : Memory} {ps : List Addr} (t : Tag) {p : Addr} {w : Mobj}
    → Forwarded m ps (with_tag t p) w
    → m p ≡ some (forwarded w)
still {m} {ps} t {p} {w} f = go (with_tag t p) (heap_pointer-with_tag t p) f
  where
    go : (v : Mobj) → heap_pointer v ≡ some (t, p) → Forwarded m ps v w → m p ≡ some (forwarded w)
    go v e (leaf e') = cc
    go v e (pointer {p = x} e' k f) =
        let same : x ≡ p = cc (e, e') in subst (λ y. m y ≡ some (forwarded w)) same f

-- What some rounds of the scan loop keep.
pub record Rounds (ps : List Addr) (g g' : Collector) : Type 0 where
  pub keeps : (v w : Mobj) → Forwarded g.memory ps v w → Forwarded g'.memory ps v w
  pub shadow_stack : g'.shadow_stack ≡ g.shadow_stack
  pub global_roots : g'.global_roots ≡ g.global_roots
  pub same_spaces : spaces g' ≡ spaces g

-- A round on an object whose slots are forwarded.
scan_object_lem :
    (g g1 : Collector) (o : Object) (ys : List Mobj)
    → g.scan_tags (tag_index g.from_base g.scan) ≡ some (object_tag o)
    → g.memory g.scan ≡ some (live o)
    → forward_all (fields o) g.from_base g ≡ ok ys g1
    → g1.scan ≡ g.scan
    → scan_object g
      ≡ ok tt (record g1 {
        memory = update g1.memory g1.scan (live (with_fields o ys));
        scan = g1.scan + object_size o;
      })
unfolding scan_object scan_live scan_fields live_at
scan_object_lem g g1 o ys tag_at object_at run same =
    let end = λ (z : Addr). ok tt (record g1 {
      memory = update g1.memory z (live (with_fields o ys));
      scan = g1.scan + object_size o;
    }) in
    rw (tag_at, scan_tag_get)
      (rw (object_at, live_at)
        (rw (same_tag_refl (object_tag o), scan_live) (rw (run, scan_fields) (ap end (sym same)))))

module _ {h : Memory} {ps : List Addr} {b total : ℕ} (distinct : Distinct ps)
    (outside : (p : Addr) → In p ps → (p < b) ⊎ (b + total ≤ p)) (heap : IsHeap h ps) where
  -- One round scans the next object.
  pub scan_object-Inv :
      (g : Collector)
      → Inv h ps b total g
      → g.scan < g.ap
      → (g' : Collector) × (scan_object g ≡ ok tt g')
        × Inv h ps b total g'
        × (g.scan < g'.scan)
        × Rounds ps g g'
  scan_object-Inv g inv lt = elim inv.cursor [
    | inl end ↦ absurd (omega arith)
    | inr (p, o, k) ↦
        let (o', at_p, size, values') = heap p k.inside in
        let same : o' ≡ o = cc (at_p, k.old) in
        let values = subst (λ z. AllValues h ps (fields z)) same values' in
        let large = Moved-size heap p o g.scan k in
        let (ys, g1, done, inv1, all, grown) =
          forward_all-Inv distinct outside heap (fields o) inv values in
        let tag_at : g.scan_tags (tag_index g.from_base g.scan) ≡ some (object_tag o) =
          subst (λ c. g.scan_tags (tag_index c g.scan) ≡ some (object_tag o)) (sym inv.base)
            (inv.tagged p o g.scan k) in
        let run : forward_all (fields o) g.from_base g ≡ ok ys g1 =
          subst (λ c. forward_all (fields o) c g ≡ ok ys g1) (sym inv.base) done in
        let object_at = inv.grey p o g.scan k (omega arith) in
        let k1 : Moved h ps g1.memory p o g1.scan = record {
          inside = k.inside;
          old = k.old;
          marker =
              still (object_tag o) (
                grown.keeps (with_tag (object_tag o) p) (with_tag (object_tag o) g.scan)
                  (pointer (heap_pointer-with_tag (object_tag o) p) k.inside k.marker))
              ∙ ap (λ z. some (forwarded (with_tag (object_tag o) z))) (sym grown.scan);
        } in
        (
          scanned outside heap inv1 k1 all,
          scan_object_lem g g1 o ys tag_at object_at run grown.scan,
          Inv-scanned outside heap inv1 k1 all,
          omega (arith, large, grown.scan),
          record {
            keeps = λ v w f. Forwarded-scanned outside heap inv1 k1 all v w (grown.keeps v w f);
            shadow_stack = grown.shadow_stack;
            global_roots = grown.global_roots;
            same_spaces = grown.same_spaces;
          },
        )
  ]
