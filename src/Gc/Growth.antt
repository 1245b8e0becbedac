-- ===== src/Gc/Growth.antt =====
-- src/gc.c: `gc_collect` makes room, and `gc_alloc` does not fail for want of it.
use minim.Base.{
  ℕ, zero, suc, ◌+◌, ◌-◌, ◌*◌, ◌%◌, ◌^◌, ◌≤◌, ◌<◌, ◌≡◌, ◌⊎◌, inl, inr, refl, sym, ap, ◌∙◌, false,
  some, List, arith,
}
use minim.Object.{Addr}
use minim.Gc.{Collector, ok, mmap_failed}
use minim.Gc.Invariant.{unmoved}
use minim.Gc.Observe.{SameRoots}
use minim.Gc.Contents.{images}
use minim.Gc.Grow.{Mmap, doubled, is_full, grow_to, grow_once}
use minim.Gc.Mapping.{IsMmap, doubled_reaches, Holds-resize, replace_to_space_cases}
use minim.Gc.Arranged.{Holds, IsArranged, do_collect-Compacted}

-- The spaces are arranged with room for `need` more bytes, and nothing can be told from the roots.
abbrev pub HasRoom : ℕ → Collector → Collector → Type 0
HasRoom need g g' =
    (ps : List Addr) × IsArranged ps g' × (g'.ap + need ≤ g'.from_end) × SameRoots g g'

pub is_full_room :
    (need : ℕ) (g : Collector)
    → g.ap + need ≤ g.from_end
    → g.from_end < 2 ^ 63
    → is_full need g ≡ false
is_full_room need g room low = ground arith

pub room_is_full :
    (need : ℕ) (g : Collector)
    → is_full need g ≡ false
    → g.ap ≤ g.from_end
    → g.from_end < 2 ^ 63
    → need ≤ 2 ^ 63
    → g.ap + need ≤ g.from_end
room_is_full need g not_full limit low small = ground arith

module _ {heap_mmap : Mmap} (kernel : IsMmap heap_mmap) where
  -- Growing to a size that fits ends with room, or with a failed `mmap`.
  grow_to-HasRoom :
      (fuel need n : ℕ) {ps : List Addr} (g : Collector)
      → Holds ps g
      → unmoved g.memory ps + need ≤ n
      → unmoved g.memory ps < fuel
      → (grow_to heap_mmap fuel n g ≡ mmap_failed)
        ⊎ ((g' : Collector) × (grow_to heap_mmap fuel n g ≡ ok tt g') × HasRoom need g g')
  unfolding grow_to
  grow_to-HasRoom fuel need n {ps} g k room enough = elim (replace_to_space_cases kernel n g) [
    | inl fails ↦ inl (rw (fails) refl)
    | inr (a, maps, pos, low, apart) ↦
        let g1 : Collector = record g { to_base = a; to_end = a + n } in
        let (g2, run, c) =
          do_collect-Compacted fuel (Holds-resize kernel a (a + n) g.space_bytes k) apart
            (omega arith) enough in
        elim (replace_to_space_cases kernel n g2) [
          | inl fails ↦ inl (rw (maps, run, fails) refl)
          | inr (a', maps', pos', low', apart') ↦
              let g3 : Collector = record g2 { to_base = a'; to_end = a' + n; space_bytes = n } in
              inr (
                g3,
                rw (maps, run, maps') refl,
                (
                  images g2.memory ps,
                  record {
                    holds = Holds-resize kernel a' (a' + n) n c.holds;
                    positive = pos;
                    from_size = c.from_end ∙ ap (λ x. x + n) (sym c.base);
                    to_size = refl;
                    low = (rw c.from_end low, low');
                    apart = apart';
                  },
                  omega (arith, c.smaller, c.full, c.base, c.from_end),
                  c.same,
                ),
              )
        ]
  ]

  grow_once_lem :
      (fuel need : ℕ) (g : Collector) (target start n : ℕ)
      → ((g.ap - g.from_base) + need) % 2 ^ 64 ≡ target
      → (g.space_bytes * 2) % 2 ^ 64 ≡ start
      → doubled fuel target start ≡ some n
      → grow_once heap_mmap fuel need g ≡ grow_to heap_mmap fuel n g
  unfolding grow_once
  grow_once_lem fuel need g target start n e e' run = rw (e, e', run, grow_once) refl

  pub grow_once-HasRoom :
      (fuel need : ℕ) {ps : List Addr} (g : Collector)
      → Holds ps g
      → g.ap ≡ g.from_base + unmoved g.memory ps
      → 0 < g.space_bytes
      → g.space_bytes * 2 < 2 ^ 64
      → unmoved g.memory ps + need ≤ 2 ^ 63
      → unmoved g.memory ps + need < fuel
      → (grow_once heap_mmap fuel need g ≡ mmap_failed)
        ⊎ ((g' : Collector) × (grow_once heap_mmap fuel need g ≡ ok tt g') × HasRoom need g g')
  grow_once-HasRoom zero need g k full pos small bound enough = absurd (omega arith)
  grow_once-HasRoom (suc fuel) need {ps} g k full pos small bound enough =
      let live = unmoved g.memory ps in
      let target : ((g.ap - g.from_base) + need) % 2 ^ 64 ≡ live + need = omega arith in
      let start : (g.space_bytes * 2) % 2 ^ 64 ≡ g.space_bytes * 2 = omega arith in
      let (n, run, reached, grown) =
        doubled_reaches fuel (live + need) (g.space_bytes * 2) (omega arith) (omega arith) bound in
      let runs : grow_once heap_mmap (suc fuel) need g ≡ grow_to heap_mmap (suc fuel) n g =
        grow_once_lem (suc fuel) need g (live + need) (g.space_bytes * 2) n target start run in
      rw runs (grow_to-HasRoom (suc fuel) need n g k reached (omega arith))
