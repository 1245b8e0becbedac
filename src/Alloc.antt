-- ===== src/Alloc.antt =====
-- src/alloc.c: the constructors of heap objects. `gc_alloc` here takes the next free bytes and never
-- collects: a collection moves objects and keeps what each reference leads to.
pub mod Laws
use minim.Base.{ℕ, ◌+◌, ◌%◌, ◌^◌, List, replicate}
use minim.Object.{
  Addr, Mobj, fixnum, pair, flonum, closure, typed, Sec, vector, kont, env, Object, cons_cell,
  double, lambda, slots, str, object_size,
}
use minim.Runtime.{Cmd, pure, ◌>>=◌, ◌>>◌, ok, write, mtyped_obj_set}

-- The object at its new address, and the pointer moved on by its size.
unfoldable pub gc_alloc : Object → Cmd Addr
unfolding object_size
gc_alloc o r = ok r.ap (record (write r r.ap o) { ap = r.ap + object_size o })

unfoldable pub mcons : Mobj → Mobj → Cmd Mobj
unfolding gc_alloc
mcons a d = do pure (pair (← gc_alloc (cons_cell a d)))

unfoldable pub mflonum : ℕ → Cmd Mobj
unfolding gc_alloc
mflonum d = do pure (flonum (← gc_alloc (double d)))

unfoldable pub mclosure : Mobj → Mobj → Mobj → Mobj → Cmd Mobj
unfolding gc_alloc
mclosure params body e n = do pure (closure (← gc_alloc (lambda params body e n)))

-- The payload is not written: it reads as the zero words that a fresh mapping holds, until the
-- caller fills every slot.
unfoldable pub typed_alloc : ℕ → Sec → Cmd Mobj
unfolding gc_alloc
typed_alloc slot_count sec = do
  pure (typed (← gc_alloc (slots sec (replicate slot_count (fixnum 0)))))

unfoldable pub mvector : ℕ → Mobj → Cmd Mobj
unfolding gc_alloc
mvector length fill = do pure (typed (← gc_alloc (slots vector (replicate length fill))))

-- `fill` is truncated to one byte.
unfoldable pub mstring : ℕ → ℕ → Cmd Mobj
unfolding gc_alloc
mstring length fill = do pure (typed (← gc_alloc (str (replicate length (fill % 2 ^ 8)))))

unfoldable pub mstring_from_bytes : List ℕ → Cmd Mobj
unfolding gc_alloc
mstring_from_bytes src = do pure (typed (← gc_alloc (str src)))

unfoldable pub menv_extend : Mobj → Mobj → Cmd Mobj
menv_extend rib parent = do
  v ← typed_alloc 2 env
  mtyped_obj_set v 0 rib
  mtyped_obj_set v 1 parent
  pure v

-- The kinds of continuation frames, fixnums in slot 0.
abbrev pub kont_halt : Mobj
kont_halt = fixnum 0

abbrev pub kont_if : Mobj
kont_if = fixnum 1

abbrev pub kont_seq : Mobj
kont_seq = fixnum 2

abbrev pub kont_app : Mobj
kont_app = fixnum 3

abbrev pub kont_set : Mobj
kont_set = fixnum 4

abbrev pub kont_define : Mobj
kont_define = fixnum 5

abbrev pub kont_let : Mobj
kont_let = fixnum 7

unfoldable pub mkont : Mobj → Mobj → Mobj → ℕ → Cmd Mobj
mkont kind parent e extra_slots = do
  v ← typed_alloc (3 + extra_slots) kont
  mtyped_obj_set v 0 kind
  mtyped_obj_set v 1 parent
  mtyped_obj_set v 2 e
  pure v

unfoldable pub mkont_if : Mobj → Mobj → Mobj → Mobj → Cmd Mobj
mkont_if parent e then_expr else_expr = do
  v ← mkont kont_if parent e 2
  mtyped_obj_set v 3 then_expr
  mtyped_obj_set v 4 else_expr
  pure v

unfoldable pub mkont_seq : Mobj → Mobj → Mobj → Cmd Mobj
mkont_seq parent e rest = do v ← mkont kont_seq parent e 1; mtyped_obj_set v 3 rest; pure v

unfoldable pub mkont_app : Mobj → Mobj → Mobj → Mobj → Cmd Mobj
mkont_app parent e unev evald = do
  v ← mkont kont_app parent e 2
  mtyped_obj_set v 3 unev
  mtyped_obj_set v 4 evald
  pure v

unfoldable pub mkont_set : Mobj → Mobj → Mobj → Cmd Mobj
mkont_set parent e name = do v ← mkont kont_set parent e 1; mtyped_obj_set v 3 name; pure v

unfoldable pub mkont_define : Mobj → Mobj → Mobj → Cmd Mobj
mkont_define parent e name = do v ← mkont kont_define parent e 1; mtyped_obj_set v 3 name; pure v

unfoldable pub mkont_let : Mobj → Mobj → Mobj → Mobj → Mobj → Cmd Mobj
mkont_let parent e pending evald body = do
  v ← mkont kont_let parent e 3
  mtyped_obj_set v 3 pending
  mtyped_obj_set v 4 evald
  mtyped_obj_set v 5 body
  pure v
