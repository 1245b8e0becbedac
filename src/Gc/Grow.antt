-- ===== src/Gc/Grow.antt =====
-- src/gc.c: `gc_init`, `gc_collect` with the growth of the spaces, and `gc_alloc`. `heap_mmap` is a
-- parameter: the kernel's answer, which may depend on all that is mapped. Sizes and ends are `size_t`s
-- and pointers, and keep the wrap-around of 64 bits.
use minim.Base.{
  ℕ, zero, suc, ◌+◌, ◌-◌, ◌*◌, ◌/◌, ◌%◌, ◌^◌, Bool, Option, none, some, ltb, if◌then◌else◌,
}
use minim.Object.{Addr, align}
use minim.Gc.{Collector, ok, mmap_failed, exhausted, out_of_fuel, Action, ◌>>◌, do_collect}

abbrev pub Mmap : Type 0
Mmap = Collector → ℕ → Option Addr

-- `while (new_sz < live + need) new_sz *= 2`.
unfoldable pub doubled : ℕ → ℕ → ℕ → Option ℕ
doubled zero target sz = none
doubled (suc fuel) target sz =
    let rest = doubled fuel target ((sz * 2) % 2 ^ 64) in if ltb sz target then rest else some sz

-- `heap.ap + need > heap.from_end`.
abbrev pub is_full : ℕ → Collector → Bool
is_full need g = ltb g.from_end ((g.ap + need) % 2 ^ 64)

abbrev pub set_space : ℕ → Action (Unit {0})
set_space n g = ok tt (record g { space_bytes = n })

abbrev pub take_room : ℕ → Action Addr
take_room need g = if is_full need g then exhausted else ok g.ap (record g { ap = g.ap + need })

-- `(initial_bytes + 4095) & ~4095`.
abbrev pub page_size : ℕ → ℕ
page_size n = (n + 4095) % 2 ^ 64 / 4096 * 4096

abbrev pub set_from_space : ℕ → Addr → Action (Unit {0})
set_from_space sz base g = ok tt (record g {
  space_bytes = sz;
  from_base = base;
  from_end = (base + sz) % 2 ^ 64;
  ap = base;
  scan = base;
})

module _ (heap_mmap : Mmap) where
  -- The target space is unmapped and a fresh one of `n` bytes takes its place.
  unfoldable pub replace_to_space : ℕ → Action (Unit {0})
  replace_to_space n g = elim (heap_mmap g n) [
    | none ↦ mmap_failed
    | some base ↦ ok tt (record g { to_base = base; to_end = (base + n) % 2 ^ 64 })
  ]

  -- The body of the growth loop, with the new size.
  unfoldable pub grow_to : ℕ → ℕ → Action (Unit {0})
  grow_to fuel new_sz =
      replace_to_space new_sz >> (do_collect fuel >> (replace_to_space new_sz >> set_space new_sz))

  unfoldable pub grow_once : ℕ → ℕ → Action (Unit {0})
  grow_once fuel need g =
      elim (doubled fuel (((g.ap - g.from_base) + need) % 2 ^ 64) ((g.space_bytes * 2) % 2 ^ 64)) [
        | none ↦ out_of_fuel
        | some new_sz ↦ grow_to fuel new_sz g
      ]

  -- `while (heap.ap + need > heap.from_end)`.
  unfoldable pub grow_loop : ℕ → ℕ → ℕ → Action (Unit {0})
  grow_loop zero fuel need = λ _. out_of_fuel
  grow_loop (suc rounds) fuel need =
      let next = grow_loop rounds fuel need in
      λ g. if is_full need g then (grow_once fuel need >> next) g else ok tt g

  unfoldable pub gc_collect : ℕ → ℕ → ℕ → Action (Unit {0})
  gc_collect rounds fuel need = do_collect fuel >> grow_loop rounds fuel need

  abbrev pub ensure_room : ℕ → ℕ → ℕ → Action (Unit {0})
  ensure_room rounds fuel need g = if is_full need g then gc_collect rounds fuel need g else ok tt g

  unfoldable pub gc_alloc : ℕ → ℕ → ℕ → Action Addr
  gc_alloc rounds fuel n = ensure_room rounds fuel (align n) >> take_room (align n)

  abbrev pub map_from_space : ℕ → Action (Unit {0})
  map_from_space sz g = elim (heap_mmap g sz) [
    | none ↦ mmap_failed
    | some base ↦ set_from_space sz base g
  ]

  unfoldable pub gc_init : ℕ → Action (Unit {0})
  gc_init initial_bytes =
      map_from_space (page_size initial_bytes) >> replace_to_space (page_size initial_bytes)
