-- ===== src/Runtime/Laws.antt =====
-- The heap of include/minim.h as a whole: what is in use lies below the allocation pointer, and an
-- operation may keep every object.
use minim.Base.{◌≤◌, ◌≡◌, none, some}
use minim.Object.{Addr, Object}
use minim.Runtime.{Runtime}

pub record IsFresh (r : Runtime) : Type 0 where
  pub unused : (p : Addr) → r.ap ≤ p → r.heap p ≡ none

-- Every object of `r` stands unchanged in `s`.
abbrev pub Keeps : Runtime → Runtime → Type 0
Keeps r s = (p : Addr) (o : Object) → r.heap p ≡ some o → s.heap p ≡ some o

pub Keeps-refl : (r : Runtime) → Keeps r r
Keeps-refl r p o h = h

pub Keeps-trans : (r s t : Runtime) → Keeps r s → Keeps s t → Keeps r t
Keeps-trans r s t h k p o e = k p o (h p o e)
