-- ===== src/Reader/Cells.antt =====
-- src/read.c, `read_list`: what an element that has been read and the rest of the list come to.
use minim.Base.{ℕ, ◌<◌, ◌≡◌, ◌≢◌, refl, sym, ap, ◌∙◌, none, some, List, arith}
use minim.Object.{Addr, Mobj, mnull, pair, cons_cell, Object, object_size}
use minim.Runtime.{Runtime, write}
use minim.Runtime.Laws.{Keeps, Keeps-trans}
use minim.Alloc.Laws.{allocated, gc_alloc-Keeps}
use minim.Symbol.Laws.{IsTable}
use minim.Writer.Data.{Datum, cons}
use minim.Reader.{Reader, Reading, ◌>>=◌}
use minim.Reader.Datum.{list_next}
use minim.Reader.Dispatch.{ReadsAs}
use minim.Reader.Lists.{ReadsTail, first_cell, next_cell}
use minim.Reader.Heap.{
  KeepsBut, rewritten-KeepsBut, rewritten-IsTable, allocated-IsTable, allocated-here,
  Shows-KeepsBut, Shows-base, Shows-Keeps, unused-ap, Keeps-unused, KeepsBut-unused,
}

abbrev pub cell_at : Mobj → Runtime → Runtime
cell_at x t = allocated (cons_cell x mnull) t

cell_room : (x : Mobj) → 0 < object_size (cons_cell x mnull)
unfolding object_size
cell_room x = omega arith

pub cell_at-IsTable : (x : Mobj) (t : Runtime) → IsTable t → IsTable (cell_at x t)
cell_at-IsTable x t table = allocated-IsTable t table (cons_cell x mnull) (cell_room x)

pub cell_at-here :
    (x : Mobj) (t : Runtime) → IsTable t → (cell_at x t).heap t.ap ≡ some (cons_cell x mnull)
cell_at-here x t table = allocated-here t table (cons_cell x mnull) (cell_room x)

module _ (read : Reading Mobj) (again : Mobj → Mobj → Reading Mobj) (a b : Datum)
    (more rest : List ℕ) (rd : Reader) (r : Runtime) (k : ReadsAs read rd r a more) where
  abbrev cell : Addr
  cell = k.after.ap

  cell_ne : (p : Addr) (o : Object) → k.after.heap p ≡ some o → p ≢ cell
  cell_ne p o h same = cc (unused-ap k.after k.table.fresh, ap k.after.heap same)

  cell_unused : r.heap cell ≡ none
  cell_unused = Keeps-unused r k.after k.kept cell (unused-ap k.after k.table.fresh)

  list_next-first :
      (read >>= λ x. list_next again mnull mnull x) rd r
      ≡ again (pair cell) (pair cell) k.reader (cell_at k.value k.after)
  unfolding list_next
  list_next-first = rw k.returns (rw (first_cell k.value k.reader k.after) refl)

  -- The first element, with the rest of the list joined to its cell.
  pub cons-ReadsAs :
      ReadsTail
        (again (pair cell) (pair cell))
        k.reader
        (cell_at k.value k.after)
        (pair cell)
        cell
        k.value
        b
        rest
      → ReadsAs (read >>= λ x. list_next again mnull mnull x) rd r (cons a b) rest
  cons-ReadsAs t =
      let kept : Keeps k.after t.after = λ p o h.
        t.kept p o (cell_ne p o h) (gc_alloc-Keeps (cons_cell k.value mnull) k.table.fresh p o h) in
      let all : Keeps r (cell_at k.value k.after) =
        Keeps-trans r k.after (cell_at k.value k.after) k.kept
          (gc_alloc-Keeps (cons_cell k.value mnull) k.table.fresh) in
      record {
        value = pair cell;
        reader = t.reader;
        after = t.after;
        returns = list_next-first ∙ t.returns;
        input = t.input;
        table = t.table;
        kept = Keeps-trans r k.after t.after k.kept kept;
        shows = (
          cell,
          k.value,
          t.cdr,
          cell_unused,
          refl,
          t.joined,
          Shows-Keeps r.heap k.after t.after a k.value kept k.shows,
          Shows-base _ r.heap t.after b t.cdr (Keeps-unused r (cell_at k.value k.after) all)
              t.shows,
        );
      }

  module _ (h q : Addr) (car : Mobj) (here : r.heap q ≡ some (cons_cell car mnull)) where
    here' : k.after.heap q ≡ some (cons_cell car mnull)
    here' = k.kept q _ here

    here_too : (cell_at k.value k.after).heap q ≡ some (cons_cell car mnull)
    here_too = gc_alloc-Keeps (cons_cell k.value mnull) k.table.fresh q _ here'

    -- The state with the new cell behind the one at `q`.
    abbrev pub linked : Runtime
    linked = write (cell_at k.value k.after) q (cons_cell car (pair cell))

    pub linked-IsTable : IsTable linked
    linked-IsTable =
        rewritten-IsTable (cell_at k.value k.after) q here_too (pair cell)
          (cell_at-IsTable k.value k.after k.table)

    linked_here : linked.heap q ≡ some (cons_cell car (pair cell))
    linked_here = ground arith

    linked-KeepsBut : KeepsBut q k.after linked
    linked-KeepsBut p o ne e =
        rewritten-KeepsBut (cell_at k.value k.after) q here_too (pair cell) p o ne
          (gc_alloc-Keeps (cons_cell k.value mnull) k.table.fresh p o e)

    pub linked_cell : linked.heap cell ≡ some (cons_cell k.value mnull)
    linked_cell =
        rewritten-KeepsBut (cell_at k.value k.after) q here_too (pair cell) cell _
          (λ same. cell_ne q _ here' (sym same))
          (allocated-here k.after k.table (cons_cell k.value mnull) (cell_room k.value))

    list_next-later :
        (read >>= λ x. list_next again (pair h) (pair q) x) rd r
        ≡ again (pair h) (pair cell) k.reader linked
    unfolding list_next
    list_next-later =
        rw k.returns (rw (next_cell k.value mnull car h q k.reader k.after k.table here') refl)

    -- A later element, likewise.
    pub cons-ReadsTail :
        ReadsTail (again (pair h) (pair cell)) k.reader linked (pair h) cell k.value b rest
        → ReadsTail
            (read >>= λ x. list_next again (pair h) (pair q) x)
            rd
            r
            (pair h)
            q
            car
            (cons a b)
            rest
    cons-ReadsTail t =
        let kept : KeepsBut q k.after t.after =
          λ p o ne e. t.kept p o (cell_ne p o e) (linked-KeepsBut p o ne e) in
        let all : KeepsBut q r linked = λ p o ne e. linked-KeepsBut p o ne (k.kept p o e) in
        record {
          cdr = pair cell;
          reader = t.reader;
          after = t.after;
          returns = list_next-later ∙ t.returns;
          input = t.input;
          table = t.table;
          kept = λ p o ne e. kept p o ne (k.kept p o e);
          joined = t.kept q _ (cell_ne q _ here') linked_here;
          shows = (
            cell,
            k.value,
            t.cdr,
            cell_unused,
            refl,
            t.joined,
            Shows-KeepsBut r.heap q k.after t.after a k.value here here' kept k.shows,
            Shows-base _ r.heap t.after b t.cdr (KeepsBut-unused q r linked all linked_here)
                t.shows,
          );
        }
