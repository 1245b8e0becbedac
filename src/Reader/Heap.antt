-- ===== src/Reader/Heap.antt =====
-- src/read.c on the heap: reading allocates, and mutates only the last cell of the list it builds.
use minim.Base.{
  ℕ, ◌<◌, ◌≡◌, ◌≢◌, refl, sym, ap, Option, none, some, List, [], ◌∷◌, arith, true, false,
  Option-cases, inl, inr, ==_ne,
}
use minim.Object.{Addr, Mobj, Object, cons_cell, pair, str, name, object_size}
use minim.Runtime.{Runtime, ok, write, mset_cdr, load}
use minim.Runtime.Laws.{IsFresh, Keeps}
use minim.Alloc.Laws.{allocated, gc_alloc-Keeps, gc_alloc-IsFresh}
use minim.Symbol.Laws.{IsTable}
use minim.Symbol.Search.{Named, named, AllNamed}
use minim.Prims.Registered.{IsTable-Keeps}
use minim.Writer.Data.{Datum, number, character, truth, empty, text, identifier, cons, Shows}

-- Every object but the one at `q` stands unchanged.
abbrev pub KeepsBut : Addr → Runtime → Runtime → Type 0
KeepsBut q r s = (p : Addr) (o : Object) → p ≢ q → r.heap p ≡ some o → s.heap p ≡ some o

module _ (base base' : Addr → Option Object) (r s : Runtime)
    (unused : (p : Addr) → base p ≡ none → base' p ≡ none)
    (cells : (p : Addr) (x y : Mobj)
      → base p ≡ none
      → r.heap p ≡ some (cons_cell x y)
      → s.heap p ≡ some (cons_cell x y))
    (strings : (p : Addr) (bs : List ℕ) → r.heap p ≡ some (str bs) → s.heap p ≡ some (str bs))
    (names : (p : Addr) (n : List ℕ) → r.heap p ≡ some (name n) → s.heap p ≡ some (name n)) where
  -- A datum is still there where its objects are.
  pub Shows-move : (d : Datum) (v : Mobj) → Shows base r d v → Shows base' s d v
  Shows-move (number n) v h = h
  Shows-move (character c) v h = h
  Shows-move (truth true) v h = h
  Shows-move (truth false) v h = h
  Shows-move empty v h = h
  Shows-move (text bs) v (p, e, h) = (p, e, strings p bs h)
  Shows-move (identifier n) v (p, e, h) = (p, e, names p n h)
  Shows-move (cons a b) v (p, x, y, new, e, h, sa, sb) =
      (p, x, y, unused p new, e, cells p x y new h, Shows-move a x sa, Shows-move b y sb)

pub Shows-Keeps :
    (base : Addr → Option Object) (r s : Runtime) (d : Datum) (v : Mobj)
    → Keeps r s
    → Shows base r d v
    → Shows base s d v
Shows-Keeps base r s d v k h =
    Shows-move base base r s (λ p e. e) (λ p x y new e. k p _ e) (λ p bs e. k p _ e)
      (λ p n e. k p _ e) d v h

-- A cell that was there before is none of the datum's.
pub Shows-KeepsBut :
    (base : Addr → Option Object) (q : Addr) {x y : Mobj} {o : Object} (r s : Runtime) (d : Datum)
    (v : Mobj)
    → base q ≡ some o
    → r.heap q ≡ some (cons_cell x y)
    → KeepsBut q r s
    → Shows base r d v
    → Shows base s d v
Shows-KeepsBut base q r s d v used here k h =
    Shows-move base base r s (λ p e. e) (λ p x' y' new e. k p _ (λ same. cc (ap base same)) e)
      (λ p bs e. k p _ (λ same. cc (ap r.heap same)) e)
      (λ p n e. k p _ (λ same. cc (ap r.heap same)) e) d v h

-- A smaller set of used addresses.
pub Shows-base :
    (base base' : Addr → Option Object) (r : Runtime) (d : Datum) (v : Mobj)
    → ((p : Addr) → base p ≡ none → base' p ≡ none)
    → Shows base r d v
    → Shows base' r d v
Shows-base base base' r d v unused h =
    Shows-move base base' r r unused (λ p x y new e. e) (λ p bs e. e) (λ p n e. e) d v h

-- The tail of a list under construction is cut off and joined to a new cell.
module _ (r : Runtime) (q : Addr) {x y : Mobj} (here : r.heap q ≡ some (cons_cell x y)) where
  pub mset_cdr-at : (z : Mobj) → mset_cdr (pair q) z r ≡ ok tt (write r q (cons_cell x z))
  unfolding mset_cdr
  mset_cdr-at z = rw (here, load) refl

  pub rewritten-KeepsBut : (z : Mobj) → KeepsBut q r (write r q (cons_cell x z))
  rewritten-KeepsBut z p o ne h = rw (==_ne q p (λ e. ne (sym e))) h

  rewritten-Named : (z v : Mobj) {n : List ℕ} → Named r n v → Named (write r q (cons_cell x z)) n v
  rewritten-Named z v (named {p} e) =
      named (rewritten-KeepsBut z p _ (λ same. cc (ap r.heap same)) e)

  rewritten-AllNamed :
      (z : Mobj) (vs : List Mobj) → AllNamed r vs → AllNamed (write r q (cons_cell x z)) vs
  rewritten-AllNamed z [] h = tt
  rewritten-AllNamed z (v ∷ vs) ((n, h), hs) =
      ((n, rewritten-Named z v h), rewritten-AllNamed z vs hs)

  pub rewritten-IsTable : (z : Mobj) → IsTable r → IsTable (write r q (cons_cell x z))
  rewritten-IsTable z t = record {
    fresh = record { unused = λ p le. ground (arith, t.fresh.unused p le, here) };
    size = t.size;
    buckets = λ i. rewritten-AllNamed z _ (t.buckets i);
  }

-- A new object.
module _ (r : Runtime) (table : IsTable r) (o : Object) (room : 0 < object_size o) where
  pub allocated-IsTable : IsTable (allocated o r)
  allocated-IsTable =
      IsTable-Keeps (allocated o r) table (gc_alloc-Keeps o table.fresh)
        (gc_alloc-IsFresh o table.fresh room) refl

  pub allocated-here : (allocated o r).heap r.ap ≡ some o
  allocated-here = ground arith

pub unused-ap : (r : Runtime) → IsFresh r → r.heap r.ap ≡ none
unused-ap r f = f.unused r.ap (omega arith)

-- What is used stays so.
pub Keeps-unused : (r s : Runtime) → Keeps r s → (p : Addr) → s.heap p ≡ none → r.heap p ≡ none
Keeps-unused r s k p h = elim (Option-cases (r.heap p)) [
  | inl e ↦ e
  | inr (o, e) ↦ absurd (cc (k p o e))
]

pub KeepsBut-unused :
    (q : Addr) {o : Object} (r s : Runtime)
    → KeepsBut q r s
    → s.heap q ≡ some o
    → (p : Addr) → s.heap p ≡ none
    → r.heap p ≡ none
KeepsBut-unused q r s k here p h = elim (Option-cases (r.heap p)) [
  | inl e ↦ e
  | inr (o, e) ↦ absurd (cc (k p o (λ same. cc (ap s.heap same)) e))
]
