-- ===== src/Gc/Invariant.antt =====
-- src/gc.c: what holds of a collection while it runs.
use minim.Base.{ℕ, ◌+◌, ◌≤◌, ◌<◌, ◌≡◌, ◌⊎◌, Option, none, some, List, [], ◌∷◌}
use minim.Object.{Addr, Mobj, Object, object_size}
use minim.Gc.{
  Tag, Cell, live, forwarded, Collector, heap_pointer, with_tag, object_tag, fields, with_fields,
  tag_index,
}

abbrev pub Memory : Type 0
Memory = Addr → Option Cell

-- What a collection does not change after the swap.
abbrev pub Spaces : Type 0
Spaces = Addr × Addr × Addr × ℕ

abbrev pub spaces : Collector → Spaces
spaces g = (g.from_end, g.to_base, g.to_end, g.space_bytes)

abbrev pub In : Addr → List Addr → Type 0
In p [] = ⊥
In p (q ∷ qs) = (p ≡ q) ⊎ In p qs

-- The slot `v` has become `w`: a leaf stays, and a pointer goes where its object has been moved.
pub data Forwarded (m : Memory) (ps : List Addr) : Mobj → Mobj → Type 0 where
  leaf : {v : Mobj} → heap_pointer v ≡ none → Forwarded m ps v v
  pointer :
      {v w : Mobj} {t : Tag} {p : Addr}
      → heap_pointer v ≡ some (t, p)
      → In p ps
      → m p ≡ some (forwarded w)
      → Forwarded m ps v w

pub data AllForwarded (m : Memory) (ps : List Addr) : List Mobj → List Mobj → Type 0 where
  nil : AllForwarded m ps [] []
  cons :
      {v w : Mobj} {vs ws : List Mobj}
      → Forwarded m ps v w
      → AllForwarded m ps vs ws
      → AllForwarded m ps (v ∷ vs) (w ∷ ws)

-- A value that may stand in a slot: a leaf, or a pointer under its object's tag to one of the objects
-- `ps` of the memory `h`.
pub data IsValue (h : Memory) (ps : List Addr) : Mobj → Type 0 where
  leaf : {v : Mobj} → heap_pointer v ≡ none → IsValue h ps v
  pointer :
      {v : Mobj} {p : Addr} {o : Object}
      → heap_pointer v ≡ some (object_tag o, p)
      → In p ps
      → h p ≡ some (live o)
      → IsValue h ps v

abbrev pub AllValues : Memory → List Addr → List Mobj → Type 0
AllValues h ps [] = Unit {0}
AllValues h ps (v ∷ vs) = IsValue h ps v × AllValues h ps vs

-- The objects at `ps` are live, and their slots hold values.
abbrev pub IsHeap : Memory → List Addr → Type 0
IsHeap h ps =
    (p : Addr)
    → In p ps
    → (o : Object) × (h p ≡ some (live o)) × (16 ≤ object_size o) × AllValues h ps (fields o)

-- The bytes of the objects that have not been moved.
abbrev pub cell_bytes : Option Cell → ℕ
cell_bytes (some (live o)) = object_size o
cell_bytes _ = 0

abbrev pub unmoved : Memory → List Addr → ℕ
unmoved m [] = 0
unmoved m (p ∷ ps) = cell_bytes (m p) + unmoved m ps

module _ (h : Memory) (ps : List Addr) where
  -- The object `o` of the old space at `p` has been moved to `q`.
  pub record Moved (m : Memory) (p : Addr) (o : Object) (q : Addr) : Type 0 where
    pub inside : In p ps
    pub old : h p ≡ some (live o)
    pub marker : m p ≡ some (forwarded (with_tag (object_tag o) q))

  -- `b` is the start of the new space, `total` the bytes of the old objects.
  pub record Inv (b total : ℕ) (g : Collector) : Type 0 where
    pub base : g.from_base ≡ b
    pub state :
        (p : Addr)
        → In p ps
        → (g.memory p ≡ h p) ⊎ ((o : Object) × (q : Addr) × Moved g.memory p o q)
    pub placed :
        (p : Addr) (o : Object) (q : Addr)
        → Moved g.memory p o q
        → (b ≤ q) × (q + object_size o ≤ g.ap)
    pub tagged :
        (p : Addr) (o : Object) (q : Addr)
        → Moved g.memory p o q
        → g.scan_tags (tag_index b q) ≡ some (object_tag o)
    pub apart :
        (p : Addr) (o : Object) (q : Addr) (p' : Addr) (o' : Object) (q' : Addr)
        → Moved g.memory p o q
        → Moved g.memory p' o' q'
        → (p ≡ p') ⊎ (q + object_size o ≤ q') ⊎ (q' + object_size o' ≤ q)
    pub next :
        (p : Addr) (o : Object) (q : Addr)
        → Moved g.memory p o q
        → (q + object_size o ≡ g.ap)
          ⊎ ((p' : Addr) × (o' : Object) × Moved g.memory p' o' (q + object_size o))
    pub grey :
        (p : Addr) (o : Object) (q : Addr)
        → Moved g.memory p o q
        → g.scan ≤ q
        → g.memory q ≡ some (live o)
    pub black :
        (p : Addr) (o : Object) (q : Addr)
        → Moved g.memory p o q
        → q < g.scan
        → (ys : List Mobj) × (g.memory q ≡ some (live (with_fields o ys)))
          × AllForwarded g.memory ps (fields o) ys
    pub cursor : (g.scan ≡ g.ap) ⊎ ((p : Addr) × (o : Object) × Moved g.memory p o g.scan)
    pub order : (b ≤ g.scan) × (g.scan ≤ g.ap)
    pub bytes : g.ap + unmoved g.memory ps ≡ b + total
