-- ===== src/Gc/Mapping.antt =====
-- src/gc.c: the mapping of a fresh target space, and the choice of its size.
use minim.Base.{
  ℕ, zero, suc, ◌+◌, ◌*◌, ◌%◌, ◌^◌, ◌≤◌, ◌<◌, ◌≡◌, ◌⊎◌, inl, inr, refl, ap, false, some, List,
  arith, Bool-cases, Option-cases, ltb, ltb→lt,
}
use minim.Object.{Addr}
use minim.Gc.{Collector, ok, mmap_failed}
use minim.Gc.Grow.{Mmap, doubled, replace_to_space}
use minim.Gc.Arranged.{Holds}

-- What Linux promises of an anonymous mapping: a length of 0 is refused, and the range is in the lower
-- half of the addresses and apart from what is mapped.
pub record IsMmap (heap_mmap : Mmap) : Type 0 where
  pub positive : (g : Collector) (n a : ℕ) → heap_mmap g n ≡ some a → 0 < n
  pub low : (g : Collector) (n a : ℕ) → heap_mmap g n ≡ some a → a + n < 2 ^ 63
  pub apart :
      (g : Collector) (n a : ℕ) → heap_mmap g n ≡ some a → (g.from_end ≤ a) ⊎ (a + n ≤ g.from_base)

pub wraps_not : (n : ℕ) → n < 2 ^ 64 → n % 2 ^ 64 ≡ n
wraps_not n h = omega arith

-- Doubling a positive size reaches the target before it wraps.
pub doubled_reaches :
    (fuel target sz : ℕ)
    → 0 < sz
    → target ≤ sz + fuel
    → target ≤ 2 ^ 63
    → (r : ℕ) × (doubled (suc fuel) target sz ≡ some r) × (target ≤ r) × (sz ≤ r)
unfolding doubled
doubled_reaches zero target sz pos enough small =
    let large : ltb sz target ≡ false = ground arith in
    (sz, rw (large) refl, omega arith, omega arith)
doubled_reaches (suc fuel) target sz pos enough small = elim (Bool-cases (ltb sz target)) [
  | inl less ↦
      let lt = ltb→lt sz target less in
      let (r, run, reached, grown) =
        doubled_reaches fuel target ((sz * 2) % 2 ^ 64) (omega arith) (omega arith) small in
      (r, rw (less) run, reached, omega arith)
  | inr not_less ↦ (sz, rw (not_less) refl, ground arith, omega arith)
]

module _ {heap_mmap : Mmap} (kernel : IsMmap heap_mmap) where
  pub Holds-resize :
      {ps : List Addr} {g : Collector} (to_base to_end n : Addr)
      → Holds ps g
      → Holds ps (record g { to_base = to_base; to_end = to_end; space_bytes = n })
  Holds-resize a e n k = record {
    distinct = k.distinct;
    heap = k.heap;
    within = k.within;
    fits = k.fits;
    limit = k.limit;
    stack = k.stack;
    others = k.others;
  }

  -- The target space is replaced by one that is apart, or the program aborts.
  pub replace_to_space_cases :
      (n : ℕ) (g : Collector)
      → (replace_to_space heap_mmap n g ≡ mmap_failed)
        ⊎ ((a : Addr) × (replace_to_space heap_mmap n g
              ≡ ok tt (record g { to_base = a; to_end = a + n }))
            × (0 < n)
            × (a + n < 2 ^ 63)
            × ((g.from_end ≤ a) ⊎ (a + n ≤ g.from_base)))
  unfolding replace_to_space
  replace_to_space_cases n g = elim (Option-cases (heap_mmap g n)) [
    | inl fails ↦ inl (rw (fails, replace_to_space) refl)
    | inr (a, maps) ↦
        let low = kernel.low g n a maps in
        inr (
          a,
          rw (maps, replace_to_space)
              (ap (λ e. ok tt (record g { to_base = a; to_end = e }))
                (wraps_not (a + n) (omega arith))),
          kernel.positive g n a maps,
          low,
          kernel.apart g n a maps,
        )
  ]
