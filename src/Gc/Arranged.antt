-- ===== src/Gc/Arranged.antt =====
-- src/gc.c: what holds of the two spaces between collections.
use minim.Base.{ℕ, ◌+◌, ◌^◌, ◌≤◌, ◌<◌, ◌≡◌, ◌⊎◌, inl, inr, ap, List, arith, Distinct}
use minim.Object.{Addr, object_size}
use minim.Gc.{Collector, ok, do_collect}
use minim.Gc.Invariant.{Spaces, In, AllValues, IsHeap, cell_bytes, unmoved}
use minim.Gc.Collect.{do_collect-Collected}
use minim.Gc.Observe.{SameRoots, SameSight-Collected}
use minim.Gc.Images.{
  AllValues-images, IsHeap-images, unmoved-images, images-full, images-Distinct, images_within,
}
use minim.Gc.Contents.{images}

-- The objects `ps` lie in the space in use, and the roots are values.
pub record Holds (ps : List Addr) (g : Collector) : Type 0 where
  pub distinct : Distinct ps
  pub heap : IsHeap g.memory ps
  pub within : (p : Addr) → In p ps → (g.from_base ≤ p) × (p + cell_bytes (g.memory p) ≤ g.ap)
  pub fits : g.from_base + unmoved g.memory ps ≤ g.ap
  pub limit : g.ap ≤ g.from_end
  pub stack : AllValues g.memory ps g.shadow_stack
  pub others : AllValues g.memory ps g.global_roots

-- The two spaces are apart, of one size, and in the lower half of the addresses.
pub record IsArranged (ps : List Addr) (g : Collector) : Type 0 where
  pub holds : Holds ps g
  pub positive : 0 < g.space_bytes
  pub from_size : g.from_end ≡ g.from_base + g.space_bytes
  pub to_size : g.to_end ≡ g.to_base + g.space_bytes
  pub low : (g.from_end < 2 ^ 63) × (g.to_end < 2 ^ 63)
  pub apart : (g.from_end ≤ g.to_base) ⊎ (g.to_end ≤ g.from_base)

-- A collection into a space that is apart and has room.
pub record Compacted (ps : List Addr) (g g' : Collector) : Type 0 where
  pub holds : Holds (images g'.memory ps) g'
  pub base : g'.from_base ≡ g.to_base
  pub full : g'.ap ≡ g'.from_base + unmoved g'.memory (images g'.memory ps)
  pub smaller : unmoved g'.memory (images g'.memory ps) ≤ unmoved g.memory ps
  pub from_end : g'.from_end ≡ g.to_end
  pub to_base : g'.to_base ≡ g.from_base
  pub to_end : g'.to_end ≡ g.from_end
  pub space_bytes : g'.space_bytes ≡ g.space_bytes
  pub same : SameRoots g g'

pub do_collect-Compacted :
    {ps : List Addr} {g : Collector} (fuel : ℕ)
    → Holds ps g
    → (g.from_end ≤ g.to_base) ⊎ (g.to_end ≤ g.from_base)
    → g.to_base + unmoved g.memory ps ≤ g.to_end
    → unmoved g.memory ps < fuel
    → (g' : Collector) × (do_collect fuel g ≡ ok tt g') × Compacted ps g g'
do_collect-Compacted {ps} {g} fuel k apart room enough =
    let outside : (p : Addr) → In p ps → (p < g.to_base) ⊎ (g.to_base + unmoved g.memory ps ≤ p) =
      λ p inside.
        let bounds = k.within p inside in
        let (o, at_p, size, values) = k.heap p inside in
        let bytes : cell_bytes (g.memory p) ≡ object_size o = ap cell_bytes at_p in
        elim apart [ inl above ↦ inl (omega (arith, k.limit)) | inr below ↦ inr (omega arith) ] in
    let (g', run, c) =
      do_collect-Collected g ps k.distinct k.heap outside k.stack k.others fuel enough in
    let base : g'.from_base ≡ g.to_base = c.invariant.base in
    let full = images-full k.heap c in
    let sum = unmoved-images k.heap c ps (λ x i. i) in
    let end : g'.from_end ≡ g.to_end = ap (λ (s : Spaces). s.0) c.same_spaces in
    (
      g',
      run,
      record {
        holds = record {
          distinct = images-Distinct k.heap c k.distinct;
          heap = IsHeap-images k.heap c;
          within =
              λ q inside. let (low, high) = images_within k.heap c q inside in (omega arith, high);
          fits = omega arith;
          limit = omega arith;
          stack = AllValues-images k.heap c c.stack_roots k.stack;
          others = AllValues-images k.heap c c.other_roots k.others;
        };
        base = base;
        full = omega arith;
        smaller = omega arith;
        from_end = end;
        to_base = ap (λ (s : Spaces). s.1) c.same_spaces;
        to_end = ap (λ (s : Spaces). s.2) c.same_spaces;
        space_bytes = ap (λ (s : Spaces). s.3) c.same_spaces;
        same = (
          SameSight-Collected k.heap c c.stack_roots k.stack,
          SameSight-Collected k.heap c c.other_roots k.others,
        );
      },
    )
