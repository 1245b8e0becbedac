-- ===== src/Gc/Images.antt =====
-- src/gc.c, `do_collect`: the copies in the new space are a heap again.
use mathlib.Core.Path.{subst}
use minim.Base.{
  ◌+◌, ◌≤◌, ◌≡◌, ◌⊎◌, inl, inr, refl, sym, ap, ◌∙◌, some, none, List, [], ◌∷◌, arith, NotIn,
  Distinct,
}
use minim.Object.{Addr, Mobj, Object, object_size}
use minim.Gc.{Collector, heap_pointer, object_tag, fields, with_fields}
use minim.Gc.Invariant.{
  In, Forwarded, AllForwarded, leaf, pointer, nil, cons, IsValue, AllValues, IsHeap, cell_bytes,
  unmoved, Moved,
}
use minim.Gc.Bytes.{NotIn-In}
use minim.Gc.Forward.{Moved-size}
use minim.Gc.Round.{heap_pointer-with_tag}
use minim.Gc.Collect.{Collected}
use minim.Gc.Graph.{Forwarded-leaf, Forwarded-Moved, Moved-copy}
use minim.Gc.Paths.{fields-with_fields}
use minim.Gc.Contents.{
  In-prepend, NotIn-else, image, images, object_size-with_fields, object_tag-with_fields, prepend,
}

module _ {ps : List Addr} {g g' : Collector} (heap : IsHeap g.memory ps)
    (c : Collected ps g g') where
  image-Moved :
      (p : Addr) (o : Object) (q : Addr)
      → Moved g.memory ps g'.memory p o q
      → image (g'.memory p) ≡ some q
  image-Moved p o q k = rw (k.marker, heap_pointer-with_tag (object_tag o) q) refl

  -- An old object stays where it is, or has one image.
  image_cases :
      (p : Addr)
      → In p ps
      → ((image (g'.memory p) ≡ none) × (g'.memory p ≡ g.memory p))
        ⊎ ((o : Object) × (q : Addr) × Moved g.memory ps g'.memory p o q)
  image_cases p inside = elim (c.invariant.state p inside) [
    | inl same ↦ let (o, at_p, size, values) = heap p inside in inl (ap image (same ∙ at_p), same)
    | inr moved ↦ inr moved
  ]

  In-images :
      (xs : List Addr) (q : Addr)
      → ((x : Addr) → In x xs → In x ps)
      → In q (images g'.memory xs)
      → (p : Addr) × (o : Object) × In p xs × Moved g.memory ps g'.memory p o q
  In-images [] q sub k = absurd k
  In-images (x ∷ xs) q sub k = elim (image_cases x (sub x (inl refl))) [
    | inl (no_image, same) ↦
        let (p, o, inside, moved) =
          In-images xs q (λ y i. sub y (inr i))
            (subst (λ i. In q (prepend i (images g'.memory xs))) no_image k) in
        (p, o, inr inside, moved)
    | inr (o, q', moved) ↦
        elim (subst (λ i. In q (prepend i (images g'.memory xs))) (image-Moved x o q' moved) k) [
          | inl same ↦
              (x, o, inl refl, subst (λ z. Moved g.memory ps g'.memory x o z) (sym same) moved)
          | inr later ↦
              let (p, o', inside, moved') = In-images xs q (λ y i. sub y (inr i)) later in
              (p, o', inr inside, moved')
        ]
  ]

  images-In :
      (xs : List Addr) (p : Addr) (o : Object) (q : Addr)
      → In p xs
      → Moved g.memory ps g'.memory p o q
      → In q (images g'.memory xs)
  images-In [] p o q inside k = absurd inside
  images-In (x ∷ xs) p o q (inl same) k =
      subst (λ z. In q (prepend (image (g'.memory z)) (images g'.memory xs))) same
        (subst (λ i. In q (prepend i (images g'.memory xs))) (sym (image-Moved p o q k)) (inl refl))
  images-In (x ∷ xs) p o q (inr inside) k =
      In-prepend q (image (g'.memory x)) (images g'.memory xs) (images-In xs p o q inside k)

  Distinct-images :
      (xs : List Addr)
      → ((x : Addr) → In x xs → In x ps)
      → Distinct xs
      → Distinct (images g'.memory xs)
  Distinct-images [] sub d = tt
  Distinct-images (x ∷ xs) sub (fresh, d) =
      let rest = Distinct-images xs (λ y i. sub y (inr i)) d in
      elim (image_cases x (sub x (inl refl))) [
        | inl (no_image, same) ↦
            subst (λ i. Distinct (prepend i (images g'.memory xs))) (sym no_image) rest
        | inr (o, q, moved) ↦
            subst (λ i. Distinct (prepend i (images g'.memory xs))) (sym (image-Moved x o q moved))
              (
                NotIn-else q (images g'.memory xs) (λ q' k same.
                    new_image x xs fresh sub q' k o
                      (subst (λ z. Moved g.memory ps g'.memory x o z) same moved)),
                rest,
              )
      ]
    where
      new_image :
          (x : Addr) (xs : List Addr)
          → NotIn x xs
          → ((y : Addr) → In y (x ∷ xs) → In y ps)
          → (q : Addr) → In q (images g'.memory xs)
          → (o : Object) → Moved g.memory ps g'.memory x o q
          → ⊥
      new_image x xs fresh sub q k o moved =
          let (p, o', inside, moved') = In-images xs q (λ y i. sub y (inr i)) k in
          let size = Moved-size heap x o q moved in
          let size' = Moved-size heap p o' q moved' in
          elim (c.invariant.apart x o q p o' q moved moved') [
            | inl same ↦ NotIn-In x p xs fresh inside same
            | inr (inl before) ↦ absurd (omega arith)
            | inr (inr after) ↦ absurd (omega arith)
          ]

  IsValue-image :
      {v w : Mobj}
      → IsValue g.memory ps v
      → Forwarded g'.memory ps v w
      → IsValue g'.memory (images g'.memory ps) w
  IsValue-image (leaf e) f =
      subst (λ z. IsValue g'.memory (images g'.memory ps) z) (Forwarded-leaf e f) (leaf e)
  IsValue-image (pointer {p = p} {o = o} e inside old) f =
      let (q, k, at_q) = Forwarded-Moved c e old f in
      let (ys, copy, all) = Moved-copy heap c k in
      pointer
        (ap heap_pointer at_q
          ∙ heap_pointer-with_tag (object_tag o) q
          ∙ ap (λ t. some (t, q)) (sym (object_tag-with_fields o ys)))
        (images-In ps p o q inside k) copy

  pub AllValues-images :
      {vs ws : List Mobj}
      → AllForwarded g'.memory ps vs ws
      → AllValues g.memory ps vs
      → AllValues g'.memory (images g'.memory ps) ws
  AllValues-images nil values = tt
  AllValues-images (cons f fs) (value, values) = (IsValue-image value f, AllValues-images fs values)

  pub IsHeap-images : IsHeap g'.memory (images g'.memory ps)
  IsHeap-images q k =
      let (p, o, inside, moved) = In-images ps q (λ x i. i) k in
      let (ys, copy, all) = Moved-copy heap c moved in
      let (o', at_p, size, values') = heap p moved.inside in
      let same : o' ≡ o = cc (at_p, moved.old) in
      let values = subst (λ z. AllValues g.memory ps (fields z)) same values' in
      (
        with_fields o ys,
        copy,
        rw (object_size-with_fields o all) (Moved-size heap p o q moved),
        rw (fields-with_fields o all) (AllValues-images all values),
      )

  -- Each byte that is not left behind is in a copy.
  pub unmoved-images :
      (xs : List Addr)
      → ((x : Addr) → In x xs → In x ps)
      → unmoved g'.memory xs + unmoved g'.memory (images g'.memory xs) ≡ unmoved g.memory xs
  unmoved-images [] sub = omega arith
  unmoved-images (x ∷ xs) sub =
      let rest = unmoved-images xs (λ y i. sub y (inr i)) in
      elim (image_cases x (sub x (inl refl))) [
        | inl (no_image, same) ↦ rw (no_image, same) (omega arith)
        | inr (o, q, moved) ↦
            let (ys, copy, all) = Moved-copy heap c moved in
            let before : cell_bytes (g.memory x) ≡ object_size o = ap cell_bytes moved.old in
            let left : cell_bytes (g'.memory x) ≡ 0 = ap cell_bytes moved.marker in
            let now : cell_bytes (g'.memory q) ≡ object_size o =
              ap cell_bytes copy ∙ object_size-with_fields o all in
            rw (image-Moved x o q moved) (omega arith)
      ]

  -- The copies fill the new space up to the allocation pointer.
  pub images-full : g'.ap ≡ g.to_base + unmoved g'.memory (images g'.memory ps)
  images-full = let sum = unmoved-images ps (λ x i. i) in omega (arith, c.invariant.bytes)

  pub images-Distinct : Distinct ps → Distinct (images g'.memory ps)
  images-Distinct d = Distinct-images ps (λ x i. i) d

  pub images_within :
      (q : Addr)
      → In q (images g'.memory ps)
      → (g.to_base ≤ q) × (q + cell_bytes (g'.memory q) ≤ g'.ap)
  images_within q k =
      let (p, o, inside, moved) = In-images ps q (λ x i. i) k in
      let (ys, copy, all) = Moved-copy heap c moved in
      let (low, high) = c.invariant.placed p o q moved in
      let bytes : cell_bytes (g'.memory q) ≡ object_size o =
        ap cell_bytes copy ∙ object_size-with_fields o all in
      (low, omega arith)
