-- ===== src/Gc/Copy.antt =====
-- src/gc.c: the copy of one object keeps the invariant of the collection.
use mathlib.Core.Path.{subst}
use minim.Base.{
  ℕ, ◌+◌, ◌≤◌, ◌<◌, ◌≡◌, ◌≢◌, ◌⊎◌, inl, inr, sym, ap, ◌∙◌, some, List, arith, Bool-cases, ◌==◌,
  ==_iff, ==_refl, ==_ne, Distinct,
}
use minim.Object.{Addr, Mobj, Object, object_size}
use minim.Gc.{
  live, forwarded, Collector, with_tag, object_tag, fields, with_fields, tag_index, copied,
}
use minim.Gc.Invariant.{
  Memory, In, Forwarded, AllForwarded, leaf, pointer, nil, cons, unmoved, Moved, Inv,
}
use minim.Gc.Bytes.{unmoved_lb, unmoved_less, with_tag_inj}

module _ {h : Memory} {ps : List Addr} {b total : ℕ} (distinct : Distinct ps)
    (outside : (p : Addr) → In p ps → (p < b) ⊎ (b + total ≤ p)) {g : Collector}
    (inv : Inv h ps b total g) {p : Addr} {o : Object} (inside : In p ps)
    (old : h p ≡ some (live o)) (size : 16 ≤ object_size o)
    (unmarked : g.memory p ≡ some (live o)) where
  abbrev g' : Collector
  g' = copied (object_tag o) p o b g

  fits : g.ap + object_size o ≤ b + total
  fits = omega (arith, unmoved_lb g.memory p o ps inside unmarked, inv.bytes)

  away : (q : Addr) → In q ps → g.ap ≢ q
  away q k e = elim (outside q k) [
    | inl lt ↦ absurd (omega (arith, inv.order))
    | inr le ↦ absurd (omega (arith, fits, size))
  ]

  pub memory-p : g'.memory p ≡ some (forwarded (with_tag (object_tag o) g.ap))
  memory-p = rw (==_refl p)

  memory-ap : g'.memory g.ap ≡ some (live o)
  memory-ap = let apart = away p inside in ground arith

  memory_else : (q : Addr) → p ≢ q → g.ap ≢ q → g'.memory q ≡ g.memory q
  memory_else q e e' = ground arith

  Moved-now : Moved h ps g'.memory p o g.ap
  Moved-now = record { inside = inside; old = old; marker = memory-p }

  Moved-before :
      (x : Addr) (y : Object) (q : Addr) → Moved h ps g.memory x y q → Moved h ps g'.memory x y q
  Moved-before x y q k = record {
    inside = k.inside;
    old = k.old;
    marker =
        memory_else x (λ e. cc (subst (λ z. g.memory z ≡ some (live o)) e unmarked, k.marker))
          (away x k.inside)
        ∙ k.marker;
  }

  -- What is moved in the new state is the object that was copied, or was moved before.
  Moved-cases :
      (x : Addr) (y : Object) (q : Addr)
      → Moved h ps g'.memory x y q
      → ((x ≡ p) × (y ≡ o) × (q ≡ g.ap)) ⊎ Moved h ps g.memory x y q
  Moved-cases x y q k = elim (Bool-cases (p == x)) [
    | inl same ↦
        let e = (==_iff p x).0 same in
        let y_eq : y ≡ o = cc (k.old, old, e) in
        let mark = k.marker in
        let tags : with_tag (object_tag o) q ≡ with_tag (object_tag o) g.ap = cc (
          subst (λ z. g'.memory z ≡ some (forwarded (with_tag (object_tag o) g.ap))) e memory-p,
          subst (λ z. g'.memory x ≡ some (forwarded (with_tag (object_tag z) q))) y_eq mark,
        ) in
        inl (sym e, y_eq, with_tag_inj (object_tag o) q g.ap tags)
    | inr differ ↦ inr (record {
      inside = k.inside;
      old = k.old;
      marker =
          sym (memory_else x (λ e. cc ((==_iff p x).1 e, differ)) (away x k.inside)) ∙ k.marker;
    })
  ]

  pub Forwarded-copied : {v w : Mobj} → Forwarded g.memory ps v w → Forwarded g'.memory ps v w
  Forwarded-copied (leaf e) = leaf e
  Forwarded-copied (pointer {p = x} e k f) = pointer e k (
      memory_else x (λ e'. cc (subst (λ z. g.memory z ≡ some (live o)) e' unmarked, f)) (away x k)
      ∙ f)

  AllForwarded-copied :
      {vs ws : List Mobj} → AllForwarded g.memory ps vs ws → AllForwarded g'.memory ps vs ws
  AllForwarded-copied nil = nil
  AllForwarded-copied (cons f fs) = cons (Forwarded-copied f) (AllForwarded-copied fs)

  -- What has been written to the new space stays.
  pub memory_new : (q : Addr) → b ≤ q → q < g.ap → g'.memory q ≡ g.memory q
  memory_new q le lt =
      memory_else q
        (λ e. elim (outside p inside) [
          | inl below ↦ absurd (omega arith)
          | inr above ↦ absurd (omega (arith, fits))
        ])
        (λ e. absurd (omega arith))

  index_apart : (q : Addr) → b ≤ q → q + 16 ≤ g.ap → tag_index b g.ap ≢ tag_index b q
  index_apart q le lt e = absurd (omega (arith, e))

  state-copied :
      (x : Addr)
      → In x ps
      → (g'.memory x ≡ h x) ⊎ ((y : Object) × (q : Addr) × Moved h ps g'.memory x y q)
  state-copied x k = elim (Bool-cases (p == x)) [
    | inl same ↦
        inr (o, g.ap, subst (λ z. Moved h ps g'.memory z o g.ap) ((==_iff p x).0 same) Moved-now)
    | inr differ ↦ elim (inv.state x k) [
      | inl e ↦ inl (memory_else x (λ e'. cc ((==_iff p x).1 e', differ)) (away x k) ∙ e)
      | inr (y, q, moved) ↦ inr (y, q, Moved-before x y q moved)
    ]
  ]

  placed-copied :
      (x : Addr) (y : Object) (q : Addr)
      → Moved h ps g'.memory x y q
      → (b ≤ q) × (q + object_size y ≤ g.ap + object_size o)
  placed-copied x y q k = elim (Moved-cases x y q k) [
    | inl (ex, ey, eq) ↦ let s = ap object_size ey in omega (arith, inv.order)
    | inr k' ↦ let bounds = inv.placed x y q k' in omega arith
  ]

  tagged-copied :
      (large : (x : Addr) (y : Object) (q : Addr) → Moved h ps g.memory x y q → 16 ≤ object_size y)
      → (x : Addr) (y : Object) (q : Addr) → Moved h ps g'.memory x y q
      → g'.scan_tags (tag_index b q) ≡ some (object_tag y)
  tagged-copied large x y q k = elim (Moved-cases x y q k) [
    | inl (ex, ey, eq) ↦ rw (ey, eq, ==_refl (tag_index b g.ap))
    | inr k' ↦
        let bounds = inv.placed x y q k' in
        rw (==_ne _ _ (index_apart q (omega arith) (omega (arith, large x y q k'))))
          (inv.tagged x y q k')
  ]

  apart-copied :
      (x : Addr) (y : Object) (q : Addr) (x' : Addr) (y' : Object) (q' : Addr)
      → Moved h ps g'.memory x y q
      → Moved h ps g'.memory x' y' q'
      → (x ≡ x') ⊎ (q + object_size y ≤ q') ⊎ (q' + object_size y' ≤ q)
  apart-copied x y q x' y' q' k k' = elim (Moved-cases x y q k) [
    | inl (ex, ey, eq) ↦ elim (Moved-cases x' y' q' k') [
      | inl (ex', ey', eq') ↦ inl (ex ∙ sym ex')
      | inr old' ↦ let bounds = inv.placed x' y' q' old' in inr (inr (omega arith))
    ]
    | inr old ↦ elim (Moved-cases x' y' q' k') [
      | inl (ex', ey', eq') ↦ let bounds = inv.placed x y q old in inr (inl (omega arith))
      | inr old' ↦ inv.apart x y q x' y' q' old old'
    ]
  ]

  next-copied :
      (x : Addr) (y : Object) (q : Addr)
      → Moved h ps g'.memory x y q
      → (q + object_size y ≡ g.ap + object_size o)
        ⊎ ((x' : Addr) × (y' : Object) × Moved h ps g'.memory x' y' (q + object_size y))
  next-copied x y q k = elim (Moved-cases x y q k) [
    | inl (ex, ey, eq) ↦ let s = ap object_size ey in inl (omega arith)
    | inr old ↦ elim (inv.next x y q old) [
      | inl end ↦ inr (p, o, subst (λ z. Moved h ps g'.memory p o z) (sym end) Moved-now)
      | inr (x', y', k') ↦ inr (x', y', Moved-before x' y' _ k')
    ]
  ]

  grey-copied :
      (large : (x : Addr) (y : Object) (q : Addr) → Moved h ps g.memory x y q → 16 ≤ object_size y)
      → (x : Addr) (y : Object) (q : Addr) → Moved h ps g'.memory x y q
      → g.scan ≤ q
      → g'.memory q ≡ some (live y)
  grey-copied large x y q k le = elim (Moved-cases x y q k) [
    | inl (ex, ey, eq) ↦ rw (ey, eq) memory-ap
    | inr k' ↦
        let bounds = inv.placed x y q k' in
        memory_new q (omega arith) (omega (arith, large x y q k')) ∙ inv.grey x y q k' le
  ]

  black-copied :
      (x : Addr) (y : Object) (q : Addr)
      → Moved h ps g'.memory x y q
      → q < g.scan
      → (ys : List Mobj) × (g'.memory q ≡ some (live (with_fields y ys)))
        × AllForwarded g'.memory ps (fields y) ys
  black-copied x y q k lt = elim (Moved-cases x y q k) [
    | inl (ex, ey, eq) ↦ absurd (omega (arith, inv.order))
    | inr k' ↦
        let (ys, at_q, all) = inv.black x y q k' lt in
        let bounds = inv.placed x y q k' in
        (ys, memory_new q (omega arith) (omega (arith, inv.order)) ∙ at_q, AllForwarded-copied all)
  ]

  cursor-copied :
      (g.scan ≡ g.ap + object_size o)
      ⊎ ((x : Addr) × (y : Object) × Moved h ps g'.memory x y g.scan)
  cursor-copied = elim inv.cursor [
    | inl end ↦ inr (p, o, subst (λ z. Moved h ps g'.memory p o z) (sym end) Moved-now)
    | inr (x, y, k) ↦ inr (x, y, Moved-before x y _ k)
  ]

  bytes-copied : g.ap + object_size o + unmoved g'.memory ps ≡ b + total
  bytes-copied =
      let less =
        unmoved_less g.memory g'.memory p o (with_tag (object_tag o) g.ap) ps distinct inside
          unmarked memory-p (λ q k e. memory_else q e (away q k)) in
      omega (arith, inv.bytes)

  -- The copy of an object that is not moved yet keeps the invariant.
  pub Inv-copied :
      (large : (x : Addr) (y : Object) (q : Addr) → Moved h ps g.memory x y q → 16 ≤ object_size y)
      → Inv h ps b total g'
  Inv-copied large = record {
    base = inv.base;
    state = state-copied;
    placed = placed-copied;
    tagged = tagged-copied large;
    apart = apart-copied;
    next = next-copied;
    grey = grey-copied large;
    black = black-copied;
    cursor = cursor-copied;
    order = omega (arith, inv.order);
    bytes = bytes-copied;
  }
