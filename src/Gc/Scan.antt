-- ===== src/Gc/Scan.antt =====
-- src/gc.c: the scan loop of `do_collect`.
use mathlib.Core.Path.{subst}
use minim.Base.{
  ℕ, ◌+◌, ◌≤◌, ◌<◌, ◌≡◌, ◌≢◌, ◌⊎◌, inl, inr, sym, ◌∙◌, some, List, arith, ==_refl, ==_ne,
}
use minim.Object.{Addr, Mobj, Object, object_size}
use minim.Gc.{Collector, live, forwarded, with_tag, object_tag, fields, with_fields, update}
use minim.Gc.Invariant.{Memory, In, Forwarded, AllForwarded, leaf, pointer, IsHeap, Moved, Inv}
use minim.Gc.Bytes.{unmoved_same, with_tag_inj}
use minim.Gc.Forward.{AllForwarded-mono, Moved-size}

module _ {h : Memory} {ps : List Addr} {b total : ℕ}
    (outside : (p : Addr) → In p ps → (p < b) ⊎ (b + total ≤ p)) (heap : IsHeap h ps) where
  module _ {g : Collector} (inv : Inv h ps b total g) {p : Addr} {o : Object} {ys : List Mobj}
      (k : Moved h ps g.memory p o g.scan) (all : AllForwarded g.memory ps (fields o) ys) where
    -- The state after the object at the scan pointer has its new slots.
    abbrev pub scanned : Collector
    scanned = record g {
      memory = update g.memory g.scan (live (with_fields o ys));
      scan = g.scan + object_size o;
    }

    away : (x : Addr) → In x ps → g.scan ≢ x
    away x inside e =
        let bounds = inv.placed p o g.scan k in
        let size = Moved-size heap p o g.scan k in
        elim (outside x inside) [
          | inl lt ↦ absurd (omega (arith, inv.order))
          | inr le ↦ absurd (omega (arith, inv.bytes))
        ]

    memory_else : (q : Addr) → g.scan ≢ q → scanned.memory q ≡ g.memory q
    memory_else q e = rw (==_ne g.scan q e)

    Moved-then :
        (x : Addr) (y : Object) (q : Addr)
        → Moved h ps scanned.memory x y q
        → Moved h ps g.memory x y q
    Moved-then x y q m = record {
      inside = m.inside;
      old = m.old;
      marker = sym (memory_else x (away x m.inside)) ∙ m.marker;
    }

    Moved-still :
        (x : Addr) (y : Object) (q : Addr)
        → Moved h ps g.memory x y q
        → Moved h ps scanned.memory x y q
    Moved-still x y q m = record {
      inside = m.inside;
      old = m.old;
      marker = memory_else x (away x m.inside) ∙ m.marker;
    }

    pub Forwarded-scanned :
        (v w : Mobj) → Forwarded g.memory ps v w → Forwarded scanned.memory ps v w
    Forwarded-scanned v w (leaf e) = leaf e
    Forwarded-scanned v w (pointer {p = x} e inside f) =
        pointer e inside (memory_else x (away x inside) ∙ f)

    black-scanned :
        (x : Addr) (y : Object) (q : Addr)
        → Moved h ps g.memory x y q
        → q < g.scan + object_size o
        → (zs : List Mobj) × (scanned.memory q ≡ some (live (with_fields y zs)))
          × AllForwarded scanned.memory ps (fields y) zs
    black-scanned x y q m lt = elim (inv.apart p o g.scan x y q k m) [
      | inl same ↦
          let y_eq : y ≡ o = cc (k.old, m.old, same) in
          let at_scan : q ≡ g.scan = with_tag_inj (object_tag o) q g.scan (
            cc (
              subst (λ z. g.memory x ≡ some (forwarded (with_tag (object_tag z) q))) y_eq m.marker,
              subst (λ z. g.memory z ≡ some (forwarded (with_tag (object_tag o) g.scan))) same
                  k.marker,
            )) in
          (
            ys,
            rw (at_scan, y_eq, ==_refl g.scan),
            rw y_eq (AllForwarded-mono Forwarded-scanned all),
          )
      | inr (inl behind) ↦ absurd (omega arith)
      | inr (inr before) ↦
          let size = Moved-size heap x y q m in
          let (zs, at_q, rest) = inv.black x y q m (omega arith) in
          (
            zs,
            memory_else q (λ e. absurd (omega arith)) ∙ at_q,
            AllForwarded-mono Forwarded-scanned rest,
          )
    ]

    pub Inv-scanned : Inv h ps b total scanned
    Inv-scanned =
        let size = Moved-size heap p o g.scan k in
        let bounds = inv.placed p o g.scan k in
        record {
          base = inv.base;
          state = λ x inside. elim (inv.state x inside) [
            | inl e ↦ inl (memory_else x (away x inside) ∙ e)
            | inr (y, q, m) ↦ inr (y, q, Moved-still x y q m)
          ];
          placed = λ x y q m. inv.placed x y q (Moved-then x y q m);
          tagged = λ x y q m. inv.tagged x y q (Moved-then x y q m);
          apart = λ x y q x' y' q' m m'.
              inv.apart x y q x' y' q' (Moved-then x y q m) (Moved-then x' y' q' m');
          next = λ x y q m. elim (inv.next x y q (Moved-then x y q m)) [
            | inl end ↦ inl end
            | inr (x', y', m') ↦ inr (x', y', Moved-still x' y' _ m')
          ];
          grey = λ x y q m le.
              memory_else q (λ e. absurd (omega arith))
              ∙ inv.grey x y q (Moved-then x y q m) (omega arith);
          black = λ x y q m lt. black-scanned x y q (Moved-then x y q m) lt;
          cursor = elim (inv.next p o g.scan k) [
            | inl end ↦ inl end
            | inr (x', y', m') ↦ inr (x', y', Moved-still x' y' _ m')
          ];
          order = omega (arith, inv.order);
          bytes =
              let same =
                unmoved_same g.memory scanned.memory ps
                  (λ q inside. memory_else q (away q inside)) in
              omega (arith, inv.bytes);
        }
