-- ===== src/Gc/Room.antt =====
-- src/gc.c: `gc_collect` makes room, and `gc_alloc` does not fail for want of it.
use minim.Base.{ℕ, suc, ◌+◌, ◌^◌, ◌≤◌, ◌<◌, ◌≡◌, ◌⊎◌, inl, inr, refl, List, arith, Bool-cases}
use minim.Object.{Addr, align}
use minim.Gc.{Collector, ok, mmap_failed}
use minim.Gc.Invariant.{In, cell_bytes, unmoved}
use minim.Gc.Observe.{SameRoots, SameRoots-refl, SameRoots-trans}
use minim.Gc.Contents.{images}
use minim.Gc.Grow.{Mmap, is_full, grow_loop, gc_collect, take_room, gc_alloc}
use minim.Gc.Mapping.{IsMmap}
use minim.Gc.Arranged.{Holds, IsArranged, Compacted, do_collect-Compacted}
use minim.Gc.Growth.{HasRoom, is_full_room, room_is_full, grow_once-HasRoom}

-- The spaces after a collection that changed no size.
IsArranged-Compacted :
    {ps : List Addr} {g g' : Collector}
    → IsArranged ps g
    → Compacted ps g g'
    → IsArranged (images g'.memory ps) g'
IsArranged-Compacted a c = record {
  holds = c.holds;
  positive = omega (arith, a.positive, c.space_bytes);
  from_size = omega (arith, a.to_size, c.from_end, c.base, c.space_bytes);
  to_size = omega (arith, a.from_size, c.to_end, c.to_base, c.space_bytes);
  low = (omega (arith, a.low, c.from_end), omega (arith, a.low, c.to_end));
  apart = elim a.apart [
    | inl above ↦ inr (omega (arith, c.to_end, c.base))
    | inr below ↦ inl (omega (arith, c.from_end, c.to_base))
  ];
}

-- Where `mmap` keeps to its contract, with spaces that are arranged, with live data and a need of 2^62
-- bytes together at most, and with more fuel than these bytes, `gc_collect` ends after at most one growth:
-- it has room for the need, the spaces are arranged around the copies, and along every path from a root
-- the same is seen as before; or an `mmap` has failed. It neither runs on nor reads a word that is no
-- object.
pub gc_collect-HasRoom :
    {heap_mmap : Mmap} (kernel : IsMmap heap_mmap) (ps : List Addr) (g : Collector)
    (rounds fuel need : ℕ)
    → IsArranged ps g
    → unmoved g.memory ps + need ≤ 2 ^ 62
    → unmoved g.memory ps + need < fuel
    → (gc_collect heap_mmap (suc (suc rounds)) fuel need g ≡ mmap_failed)
      ⊎ ((g' : Collector) × (gc_collect heap_mmap (suc (suc rounds)) fuel need g ≡ ok tt g')
          × HasRoom need g g')
unfolding gc_collect grow_loop
gc_collect-HasRoom {heap_mmap} kernel ps g rounds fuel need a small enough =
    let k = a.holds in
    let (g1, run, c) =
      do_collect-Compacted fuel k a.apart
        (omega (arith, a.low, a.from_size, a.to_size, k.limit, k.fits)) (omega arith) in
    let a1 = IsArranged-Compacted a c in
    elim (Bool-cases (is_full need g1)) [
      | inl full ↦
          elim (grow_once-HasRoom kernel fuel need g1 c.holds c.full a1.positive
            (omega (arith, a1.low, a1.from_size)) (omega (arith, c.smaller))
            (omega (arith, c.smaller))) [
              | inl fails ↦ inl (rw (run, full, fails) refl)
              | inr (g2, grows, (ps2, a2, room, seen)) ↦
                  let now = is_full_room need g2 room a2.low.0 in
                  inr (
                    g2,
                    rw (run, full, grows, now) refl,
                    (ps2, a2, room, SameRoots-trans g g1 g2 c.same seen),
                  )
            ]
      | inr not_full ↦ inr (
        g1,
        rw (run, not_full) refl,
        (
          images g1.memory ps,
          a1,
          room_is_full need g1 not_full c.holds.limit a1.low.0 (omega arith),
          c.same,
        ),
      )
    ]

Holds-bump :
    {ps : List Addr} {g : Collector} (n : ℕ)
    → Holds ps g
    → g.ap + n ≤ g.from_end
    → Holds ps (record g { ap = g.ap + n })
Holds-bump n k room = record {
  distinct = k.distinct;
  heap = k.heap;
  within = λ p inside. let (low, high) = k.within p inside in (low, omega arith);
  fits = omega (arith, k.fits);
  limit = room;
  stack = k.stack;
  others = k.others;
}

IsArranged-bump :
    {ps : List Addr} {g : Collector} (n : ℕ)
    → IsArranged ps g
    → g.ap + n ≤ g.from_end
    → IsArranged ps (record g { ap = g.ap + n })
IsArranged-bump n a room = record {
  holds = Holds-bump n a.holds room;
  positive = a.positive;
  from_size = a.from_size;
  to_size = a.to_size;
  low = a.low;
  apart = a.apart;
}

-- A block of `n` bytes from `p` on, behind all objects, in spaces that are arranged, with roots from which
-- nothing else is seen.
abbrev pub IsBlock : ℕ → Addr → Collector → Collector → Type 0
IsBlock n p g g' =
    (ps : List Addr) × IsArranged ps g'
    × (g'.from_base ≤ p)
    × (p + n ≤ g'.ap)
    × ((q : Addr) → In q ps → q + cell_bytes (g'.memory q) ≤ p)
    × SameRoots g g'

align_large : (n : ℕ) → n ≤ 2 ^ 62 → (n ≤ align n) × (align n ≤ n + 15)
unfolding align
align_large n small = (omega arith, omega arith)

take_room-IsBlock :
    (ps : List Addr) (g0 g : Collector) (need n : ℕ)
    → SameRoots g0 g
    → IsArranged ps g
    → n ≤ need
    → g.ap + need ≤ g.from_end
    → (g' : Collector) × (take_room need g ≡ ok g.ap g') × IsBlock n g.ap g0 g'
take_room-IsBlock ps g0 g need n seen a large room = (
  record g { ap = g.ap + need },
  rw (is_full_room need g room a.low.0) refl,
  (
    ps,
    IsArranged-bump need a room,
    omega (arith, a.holds.fits),
    omega arith,
    λ q inside. let (low, high) = a.holds.within q inside in high,
    seen,
  ),
)

-- Where `mmap` keeps to its contract, with spaces that are arranged, with live data, a request and its
-- padding of 2^62 bytes together at most, and with more fuel than these bytes, `gc_alloc` gives a block of
-- the size asked for, behind all objects, with the spaces arranged still and the same to be seen along
-- every path from a root, or an `mmap` has failed. It never ends in "out of memory after GC".
pub gc_alloc-IsBlock :
    {heap_mmap : Mmap} (kernel : IsMmap heap_mmap) (ps : List Addr) (g : Collector)
    (rounds fuel n : ℕ)
    → IsArranged ps g
    → unmoved g.memory ps + n + 15 ≤ 2 ^ 62
    → unmoved g.memory ps + n + 15 < fuel
    → (gc_alloc heap_mmap (suc (suc rounds)) fuel n g ≡ mmap_failed)
      ⊎ ((p : Addr) × (g' : Collector) × (gc_alloc heap_mmap (suc (suc rounds)) fuel n g ≡ ok p g')
          × IsBlock n p g g')
unfolding gc_alloc
gc_alloc-IsBlock {heap_mmap} kernel ps g rounds fuel n a small enough =
    let (large, near) = align_large n (omega arith) in
    elim (Bool-cases (is_full (align n) g)) [
      | inl full ↦
          elim (gc_collect-HasRoom kernel ps g rounds fuel (align n) a (omega arith)
            (omega arith)) [
              | inl fails ↦ inl (rw (full, fails) refl)
              | inr (g1, run, (ps1, a1, room, seen)) ↦
                  let (g', takes, block) =
                    take_room-IsBlock ps1 g g1 (align n) n seen a1 large room in
                  inr (g1.ap, g', rw (full, run) takes, block)
            ]
      | inr not_full ↦
          let room = room_is_full (align n) g not_full a.holds.limit a.low.0 (omega arith) in
          let (g', takes, block) =
            take_room-IsBlock ps g g (align n) n (SameRoots-refl g) a large room in
          inr (g.ap, g', rw (not_full) takes, block)
    ]
