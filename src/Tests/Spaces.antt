-- ===== src/Tests/Spaces.antt =====
-- The theorems on the growth of the spaces, with a kernel that maps each range behind the space in use.
use minim.Base.{
  ℕ, ◌+◌, ◌^◌, ◌%◌, ◌≤◌, ◌<◌, ◌≡◌, ◌⊎◌, inl, inr, refl, sym, ◌∙◌, Option, none, some, [], arith,
  ltb, if◌then◌else◌, Bool-cases, ◌&&◌,
}
use minim.Object.{Addr, object_size}
use minim.Gc.{Collector, ok, mmap_failed}
use minim.Gc.Invariant.{In, cell_bytes, leaf}
use minim.Gc.Grow.{Mmap, gc_collect, gc_alloc, gc_init}
use minim.Gc.Mapping.{IsMmap}
use minim.Gc.Arranged.{Holds, IsArranged}
use minim.Gc.Growth.{HasRoom}
use minim.Gc.Room.{IsBlock, gc_collect-HasRoom, gc_alloc-IsBlock}
use minim.Gc.Start.{gc_init-IsArranged}
use minim.Tests.Collector.{
  old, old_memory, places, old-IsHeap, old-Distinct, old-unmoved, at_4096, at_4128,
}

abbrev is_mapped : Collector → ℕ → Addr → Option Addr
is_mapped g n a = if ltb 0 n && ltb (a + n) (2 ^ 63) then some a else none

abbrev behind : Mmap
behind g n = is_mapped g n (g.from_end + 4096)

some_inj : {a b : ℕ} → ◌≡◌ {A = Option ℕ} (some a) (some b) → a ≡ b
some_inj e = cc

mapped_range :
    (g : Collector) (n a b : ℕ) → is_mapped g n a ≡ some b → (0 < n) × (b + n < 2 ^ 63) × (a ≡ b)
mapped_range g n a b e = elim (Bool-cases (ltb 0 n && ltb (a + n) (2 ^ 63))) [
  | inl fits ↦
      let maps : is_mapped g n a ≡ some a = rw (fits) refl in
      let same : a ≡ b = some_inj (sym maps ∙ e) in (ground arith, ground arith, same)
  | inr over ↦ let refuses : is_mapped g n a ≡ none = rw (over) refl in absurd cc
]

behind-IsMmap : IsMmap behind
behind-IsMmap = record {
  positive = λ g n a e. (mapped_range g n (g.from_end + 4096) a e).0;
  low = λ g n a e. (mapped_range g n (g.from_end + 4096) a e).1;
  apart = λ g n a e. inl (omega (arith, mapped_range g n (g.from_end + 4096) a e));
}

old-Holds : Holds places old
unfolding object_size
old-Holds = record {
  distinct = old-Distinct;
  heap = old-IsHeap;
  within = old_within;
  fits = omega (arith, old-unmoved);
  limit = omega arith;
  stack = (at_4128, (leaf refl, tt));
  others = (at_4096, (at_4128, tt));
}
  where
    old_within : (p : Addr) → In p places → (4096 ≤ p) × (p + cell_bytes (old_memory p) ≤ 4160)
    old_within p (inl e) = rw e (omega arith, omega arith)
    old_within p (inr (inl e)) = rw e (omega arith, omega arith)
    old_within p (inr (inr (inl e))) = rw e (omega arith, omega arith)
    old_within p (inr (inr (inr (inl e)))) = rw e (omega arith, omega arith)
    old_within p (inr (inr (inr (inr k)))) = absurd k

old-IsArranged : IsArranged places old
old-IsArranged = record {
  holds = old-Holds;
  positive = omega arith;
  from_size = refl;
  to_size = refl;
  low = (omega arith, omega arith);
  apart = inl (omega arith);
}

gc_collect-HasRoom_example :
    (gc_collect behind 2 100000 9000 old ≡ mmap_failed)
    ⊎ ((g' : Collector) × (gc_collect behind 2 100000 9000 old ≡ ok tt g') × HasRoom 9000 old g')
gc_collect-HasRoom_example =
    gc_collect-HasRoom behind-IsMmap places old 0 100000 9000 old-IsArranged
      (omega (arith, old-unmoved)) (omega (arith, old-unmoved))

gc_alloc-IsBlock_example :
    (gc_alloc behind 2 100000 9000 old ≡ mmap_failed)
    ⊎ ((p : Addr) × (g' : Collector) × (gc_alloc behind 2 100000 9000 old ≡ ok p g')
        × IsBlock 9000 p old g')
gc_alloc-IsBlock_example =
    gc_alloc-IsBlock behind-IsMmap places old 0 100000 9000 old-IsArranged
      (omega (arith, old-unmoved)) (omega (arith, old-unmoved))

abbrev cleared : Collector
cleared = record old { shadow_stack = []; global_roots = [] }

gc_init-IsArranged_example :
    (gc_init behind 5000 cleared ≡ mmap_failed)
    ⊎ ((g' : Collector) × (gc_init behind 5000 cleared ≡ ok tt g')
        × IsArranged [] g'
        × (5000 ≤ g'.space_bytes)
        × (g'.space_bytes < 5000 + 4096)
        × (g'.space_bytes % 4096 ≡ 0)
        × (g'.ap ≡ g'.from_base))
gc_init-IsArranged_example = gc_init-IsArranged behind-IsMmap cleared 5000 refl refl (omega arith)
