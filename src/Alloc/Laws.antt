-- ===== src/Alloc/Laws.antt =====
-- src/alloc.c: the state after an allocation.
use minim.Base.{◌+◌, ◌<◌, arith}
use minim.Object.{Object, object_size}
use minim.Runtime.{Runtime, write}
use minim.Runtime.Laws.{IsFresh, Keeps}

-- The state after an allocation.
abbrev pub allocated : Object → Runtime → Runtime
allocated o r = record (write r r.ap o) { ap = r.ap + object_size o }

module _ (o : Object) {r : Runtime} (fresh : IsFresh r) where
  pub gc_alloc-Keeps : Keeps r (allocated o r)
  gc_alloc-Keeps p o' e = ground (arith, fresh.unused p)

  pub gc_alloc-IsFresh : 0 < object_size o → IsFresh (allocated o r)
  gc_alloc-IsFresh h = record { unused = λ p le. ground (arith, fresh.unused p) }
