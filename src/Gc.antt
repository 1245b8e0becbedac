-- ===== src/Gc.antt =====
-- src/gc.c: the copying collector. The memory is one map for both semispaces: an address holds an
-- object or the two words MFORWARD_MARKER and the new pointer. A collection reads no byte of the
-- target space that it has not written, and what stands there before stays in the map.
pub mod Invariant
pub mod Bytes
pub mod Copy
pub mod Forward
pub mod Scan
pub mod Round
pub mod Collect
pub mod Graph
pub mod Paths
pub mod Contents
pub mod Images
pub mod Observe
pub mod Grow
pub mod Arranged
pub mod Mapping
pub mod Growth
pub mod Room
pub mod Start
use minim.Base.{
  ℕ, zero, suc, ◌+◌, ◌-◌, ◌*◌, ◌/◌, ◌%◌, Bool, true, false, Option, none, some, List, [], ◌∷◌, ltb,
  ◌==◌, if◌then◌else◌,
}
use minim.Object.{
  Addr, Mobj, fixnum, mfalse, mtrue, mnull, mvoid, meof, char, pair, flonum, symbol, closure, typed,
  Object, cons_cell, double, name, lambda, slots, str, object_size,
}

-- The primary tags of heap pointers.
pub data Tag : Type 0 where
  tag_pair tag_flonum tag_symbol tag_closure tag_typed : Tag

pub data Cell : Type 0 where
  live : Object → Cell
  forwarded : Mobj → Cell

-- `struct minim_heap`, the roots' slots and the tags of the copied objects, one for each 16 bytes.
pub record Collector : Type 0 where
  pub memory : Addr → Option Cell
  pub from_base : Addr
  pub from_end : Addr
  pub to_base : Addr
  pub to_end : Addr
  pub ap : Addr
  pub scan : Addr
  pub space_bytes : ℕ
  pub scan_tags : ℕ → Option Tag
  pub shadow_stack : List Mobj
  pub global_roots : List Mobj

-- A `fault` is a read of an object that is not there or under another tag; the program aborts or reads
-- garbage. `mmap_failed` and `exhausted` are the aborts of `heap_mmap` and of
-- `gc_alloc`. A loop that goes on past its fuel is `out_of_fuel`.
pub data Outcome {ℓ} (A : Type ℓ) : Type ℓ where
  ok : A → Collector → Outcome A
  fault mmap_failed exhausted out_of_fuel : Outcome A

abbrev pub Action {ℓ} : Type ℓ → Type ℓ
Action A = Collector → Outcome A

module _ {ℓ κ} {A : Type ℓ} {B : Type κ} where
  abbrev pub and_then : Outcome A → (A → Action B) → Outcome B
  and_then (ok a g) k = k a g
  and_then fault k = fault
  and_then mmap_failed k = mmap_failed
  and_then exhausted k = exhausted
  and_then out_of_fuel k = out_of_fuel

  infixl 5 ◌>>=◌
  abbrev pub ◌>>=◌ : Action A → (A → Action B) → Action B
  m >>= k = λ g. and_then (m g) k

infixl 5 ◌>>◌
abbrev pub ◌>>◌ {ℓ} : {B : Type ℓ} → Action (Unit {0}) → Action B → Action B
m >> n = m >>= λ _. n

abbrev pub pure {ℓ} : {A : Type ℓ} → A → Action A
pure a g = ok a g

abbrev pub get : Action Collector
get g = ok g g

-- Tag and untagged address; `none` for the leaves, fixnums and immediates (minim_is_leaf).
abbrev pub heap_pointer : Mobj → Option (Tag × Addr)
heap_pointer (pair p) = some (tag_pair, p)
heap_pointer (flonum p) = some (tag_flonum, p)
heap_pointer (symbol p) = some (tag_symbol, p)
heap_pointer (closure p) = some (tag_closure, p)
heap_pointer (typed p) = some (tag_typed, p)
heap_pointer _ = none

-- `(mobj)((uintptr_t)new_base | tag)`.
abbrev pub with_tag : Tag → Addr → Mobj
with_tag tag_pair p = pair p
with_tag tag_flonum p = flonum p
with_tag tag_symbol p = symbol p
with_tag tag_closure p = closure p
with_tag tag_typed p = typed p

-- The tag under which an object of a kind is reached.
abbrev pub object_tag : Object → Tag
object_tag (cons_cell a d) = tag_pair
object_tag (double d) = tag_flonum
object_tag (name s) = tag_symbol
object_tag (lambda p b e n) = tag_closure
object_tag (slots sec xs) = tag_typed
object_tag (str bs) = tag_typed

abbrev pub same_tag : Tag → Tag → Bool
same_tag tag_pair tag_pair = true
same_tag tag_flonum tag_flonum = true
same_tag tag_symbol tag_symbol = true
same_tag tag_closure tag_closure = true
same_tag tag_typed tag_typed = true
same_tag _ _ = false

-- The slots that scan_fields walks, in its order.
abbrev pub fields : Object → List Mobj
fields (cons_cell a d) = a ∷ d ∷ []
fields (lambda p b e n) = p ∷ b ∷ e ∷ n ∷ []
fields (slots sec xs) = xs
fields _ = []

-- The object with other values in these slots.
abbrev pub with_fields : Object → List Mobj → Object
with_fields (cons_cell a d) (x ∷ y ∷ _) = cons_cell x y
with_fields (lambda p b e n) (x ∷ y ∷ z ∷ w ∷ _) = lambda x y z w
with_fields (slots sec xs) ys = slots sec ys
with_fields o _ = o

abbrev pub update {ℓ} : {A : Type ℓ} → (ℕ → Option A) → ℕ → A → ℕ → Option A
update h p o q = if p == q then some o else h q

abbrev pub tag_index : Addr → Addr → ℕ
tag_index base_start obj_base = (obj_base - base_start) / 16

-- `memcpy`, the bump of the allocation pointer, the marker in the old object, and the tag of the new one.
abbrev pub copied : Tag → Addr → Object → Addr → Collector → Collector
copied tag base o start g = record g {
  memory = update (update g.memory g.ap (live o)) base (forwarded (with_tag tag g.ap));
  ap = g.ap + object_size o;
  scan_tags = update g.scan_tags (tag_index start g.ap) tag;
}

-- `object_size(v)` goes by the tag of the pointer: under another tag it would read another size.
unfoldable pub forward_cell : Tag → Addr → Addr → Option Cell → Action Mobj
forward_cell tag base start none g = fault
forward_cell tag base start (some (forwarded w)) g = ok w g
forward_cell tag base start (some (live o)) g =
    if same_tag tag (object_tag o)
    then ok (with_tag tag g.ap) (copied tag base o start g)
    else fault

-- The new value of a slot.
unfoldable pub forward_tagged : Mobj → Addr → Action Mobj
forward_tagged v start g = elim (heap_pointer v) [
  | none ↦ ok v g
  | some (tag, base) ↦ forward_cell tag base start (g.memory base) g
]

unfoldable pub forward_all : List Mobj → Addr → Action (List Mobj)
forward_all [] start = pure []
forward_all (v ∷ vs) start =
    let rest = forward_all vs start in forward_tagged v start >>= λ w. rest >>= λ ws. pure (w ∷ ws)

unfoldable pub live_at : Addr → Action Object
live_at p g = elim (g.memory p) [ some (live o) ↦ ok o g | _ ↦ fault ]

abbrev pub store : Addr → Object → Action (Unit {0})
store p o g = ok tt (record g { memory = update g.memory p (live o) })

-- Each slot is forwarded in turn; only old objects are read meanwhile.
unfoldable pub scan_fields : Addr → Object → Addr → Action (Unit {0})
scan_fields base o start = do ys ← forward_all (fields o) start; store base (with_fields o ys)

abbrev pub scan_tag_get : Addr → Addr → Action Tag
scan_tag_get start p g = elim (g.scan_tags (tag_index start p)) [ none ↦ fault | some t ↦ ok t g ]

abbrev pub advance : ℕ → Action (Unit {0})
advance n g = ok tt (record g { scan = g.scan + n })

-- `scan_fields` and the bump go by the recorded tag.
unfoldable pub scan_live : Tag → Object → Action (Unit {0})
scan_live tag o g =
    if same_tag tag (object_tag o)
    then (do scan_fields g.scan o g.from_base; advance (object_size o)) g
    else fault

-- One round of the scan loop.
unfoldable pub scan_object : Action (Unit {0})
scan_object = do g ← get; tag ← scan_tag_get g.from_base g.scan; o ← live_at g.scan; scan_live tag o

-- `while (heap.scan < heap.ap)`.
unfoldable pub scan_loop : ℕ → Action (Unit {0})
scan_loop zero = λ _. out_of_fuel
scan_loop (suc fuel) =
    let next = scan_loop fuel in λ g. if ltb g.scan g.ap then (scan_object >> next) g else ok tt g

abbrev pub set_roots : List Mobj → List Mobj → Action (Unit {0})
set_roots ss gs g = ok tt (record g { shadow_stack = ss; global_roots = gs })

-- The swap of the spaces, and the pointers at the start of the new one.
abbrev pub swapped : Collector → Collector
swapped g = record g {
  from_base = g.to_base;
  from_end = g.to_end;
  to_base = g.from_base;
  to_end = g.from_end;
  ap = g.to_base;
  scan = g.to_base;
}

unfoldable pub forward_roots : Action (Unit {0})
forward_roots = do
  g ← get
  ss ← forward_all g.shadow_stack g.from_base
  gs ← forward_all g.global_roots g.from_base
  set_roots ss gs

unfoldable pub do_collect : ℕ → Action (Unit {0})
do_collect fuel g = (forward_roots >> scan_loop fuel) (swapped g)
