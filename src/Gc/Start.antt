-- ===== src/Gc/Start.antt =====
-- src/gc.c, `gc_init`: the spaces at the start.
use minim.Base.{ℕ, ◌+◌, ◌%◌, ◌^◌, ◌≤◌, ◌<◌, ◌≡◌, ◌⊎◌, inl, inr, refl, ap, [], arith, Option-cases}
use minim.Gc.{Collector, ok, mmap_failed}
use minim.Gc.Grow.{Mmap, page_size, map_from_space, gc_init}
use minim.Gc.Mapping.{IsMmap, wraps_not, replace_to_space_cases}
use minim.Gc.Arranged.{IsArranged}

-- Where `mmap` keeps to its contract, from a state without roots, for fewer than 2^63 bytes, `gc_init`
-- maps two spaces of the size asked for, rounded up to whole pages, that are arranged and empty, or an
-- `mmap` has failed.
pub gc_init-IsArranged :
    {heap_mmap : Mmap} (kernel : IsMmap heap_mmap) (g : Collector) (n : ℕ)
    → g.shadow_stack ≡ []
    → g.global_roots ≡ []
    → n < 2 ^ 63
    → (gc_init heap_mmap n g ≡ mmap_failed)
      ⊎ ((g' : Collector) × (gc_init heap_mmap n g ≡ ok tt g')
          × IsArranged [] g'
          × (n ≤ g'.space_bytes)
          × (g'.space_bytes < n + 4096)
          × (g'.space_bytes % 4096 ≡ 0)
          × (g'.ap ≡ g'.from_base))
unfolding gc_init
gc_init-IsArranged {heap_mmap} kernel g n no_stack no_roots small =
    elim (Option-cases (heap_mmap g (page_size n))) [
      | inl fails ↦ inl (rw (fails, map_from_space) refl)
      | inr (a, maps) ↦
          let sz = page_size n in
          let low = kernel.low g sz a maps in
          let g1 : Collector = record g {
            space_bytes = sz;
            from_base = a;
            from_end = a + sz;
            ap = a;
            scan = a;
          } in
          let mapped : map_from_space heap_mmap sz g ≡ ok tt g1 =
            rw (maps, map_from_space)
              (ap
                (λ e.
                  ok tt
                    (record g { space_bytes = sz; from_base = a; from_end = e; ap = a; scan = a }))
                (wraps_not (a + sz) (omega arith))) in
          elim (replace_to_space_cases kernel sz g1) [
            | inl fails ↦ inl (rw (mapped, fails) refl)
            | inr (a', maps', pos, low', apart) ↦ inr (
              record g1 { to_base = a'; to_end = a' + sz },
              rw (mapped, maps') refl,
              record {
                holds = record {
                  distinct = tt;
                  heap = λ p inside. absurd inside;
                  within = λ p inside. absurd inside;
                  fits = omega arith;
                  limit = omega arith;
                  stack = rw no_stack tt;
                  others = rw no_roots tt;
                };
                positive = pos;
                from_size = refl;
                to_size = refl;
                low = (low, low');
                apart = apart;
              },
              omega arith,
              omega arith,
              omega arith,
              refl,
            )
          ]
    ]
