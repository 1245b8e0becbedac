-- ===== src/Reader/Lists.antt =====
-- src/read.c, `read_list`: one round of its loop, at an element, at a dot and at the end.
use minim.Base.{ℕ, suc, ◌≡◌, ◌≢◌, refl, ◌∙◌, false, some, List, ◌∷◌, ==_ne}
use minim.Object.{Addr, Mobj, mnull, pair, cons_cell}
use minim.Runtime.{Runtime, ok, write}
use minim.Alloc.{mcons}
use minim.Alloc.Laws.{allocated, gc_alloc-Keeps}
use minim.Symbol.Laws.{IsTable}
use minim.Writer.Data.{Datum, Shows}
use minim.Reader.{
  Reader, Reading, got, ◌>>=◌, ◌>>◌, reader_peek, is_close_paren, is_delimiter, matching_paren,
  isspace,
}
use minim.Reader.Tokens.{skip_whitespace}
use minim.Reader.Datum.{
  list_loop, list_step, list_next, list_dot, close_list, dotted_cdr, append_cell,
}
use minim.Reader.Input.{Input, Leaves, reader_peek-Leaves}
use minim.Reader.Lexing.{skip_char-Leaves}
use minim.Reader.Heap.{KeepsBut, mset_cdr-at}

abbrev pub looping : Reading Mobj → ℕ → Mobj → Mobj → Reading Mobj
looping read g h t = list_loop read b'(' g h t

list_loop_round :
    (read : Reading Mobj) (g : ℕ) (h t : Mobj)
    → looping read (suc g) h t ≡ (
        skip_whitespace g
        >> (reader_peek >>= list_step read g b'(' (λ (h' t' : Mobj). looping read g h' t') h t))
unfolding list_loop
list_loop_round read g h t = refl

list_step-element :
    (read : Reading Mobj) (g c : ℕ) (again : Mobj → Mobj → Reading Mobj) (h t : Mobj)
    → is_close_paren (some c) ≡ false
    → c ≢ b'.'
    → list_step read g b'(' again h t (some c) ≡ (read >>= λ x. list_next again h t x)
unfolding list_step
list_step-element read g c again h t no_close no_dot = rw (no_close, ==_ne c b'.' no_dot) refl

-- At the first character of an element, it is read, and its cell goes to the end.
pub element_round :
    (read : Reading Mobj) (g c : ℕ) (cs : List ℕ) (h t : Mobj) (rd : Reader) (r : Runtime)
    → is_close_paren (some c) ≡ false
    → c ≢ b'.'
    → Leaves (skip_whitespace g) rd r tt (c ∷ cs) r
    → (rd' : Reader) × (looping read (suc g) h t rd r
        ≡ (read >>= λ x. list_next (λ (h' t' : Mobj). looping read g h' t') h t x) rd' r)
      × Input rd' (c ∷ cs)
element_round read g c cs h t rd r no_close no_dot (rd1, e1, i1) =
    let (rd2, e2, i2) = reader_peek-Leaves rd1 r (c ∷ cs) i1 in
    (
      rd2,
      rw (list_loop_round read g h t, e1, e2)
          (rw
            (list_step-element read g c (λ (h' t' : Mobj). looping read g h' t') h t no_close
              no_dot)
            refl),
      i2,
    )

close_list-Leaves :
    (h : Mobj) (rest : List ℕ) (rd : Reader) (r : Runtime)
    → Input rd (b')' ∷ rest)
    → Leaves (close_list b'(' h (some b')')) rd r h rest r
unfolding close_list matching_paren
close_list-Leaves h rest rd r i =
    let (rd1, e1, i1) = skip_char-Leaves rd r b')' rest i in (rd1, rw e1 refl, i1)

list_step-close :
    (read : Reading Mobj) (g : ℕ) (again : Mobj → Mobj → Reading Mobj) (h t : Mobj)
    → list_step read g b'(' again h t (some b')') ≡ close_list b'(' h (some b')')
unfolding list_step is_close_paren
list_step-close read g again h t = refl

-- At the closing parenthesis the list is returned.
pub close_round :
    (read : Reading Mobj) (g : ℕ) (rest : List ℕ) (h t : Mobj) (rd : Reader) (r : Runtime)
    → Leaves (skip_whitespace g) rd r tt (b')' ∷ rest) r
    → Leaves (looping read (suc g) h t) rd r h rest r
close_round read g rest h t rd r (rd1, e1, i1) =
    let (rd2, e2, i2) = reader_peek-Leaves rd1 r (b')' ∷ rest) i1 in
    let (rd3, e3, i3) = close_list-Leaves h rest rd2 r i2 in
    (
      rd3,
      rw (list_loop_round read g h t, e1, e2)
          (rw (list_step-close read g (λ (h' t' : Mobj). looping read g h' t') h t) e3),
      i3,
    )

list_step-dot :
    (read : Reading Mobj) (g : ℕ) (again : Mobj → Mobj → Reading Mobj) (h t : Mobj)
    → list_step read g b'(' again h t (some b'.') ≡ list_dot read g b'(' again h t
unfolding list_step is_close_paren
list_step-dot read g again h t = refl

list_dot-space :
    (read : Reading Mobj) (g : ℕ) (again : Mobj → Mobj → Reading Mobj) (h t : Mobj) (cs : List ℕ)
    (rd : Reader) (r : Runtime)
    → Input rd (b'.' ∷ b' ' ∷ cs)
    → (rd' : Reader) × (list_dot read g b'(' again h t rd r ≡ dotted_cdr read g b'(' h t rd' r)
      × Input rd' (b' ' ∷ cs)
unfolding list_dot is_delimiter isspace
list_dot-space read g again h t cs rd r i =
    let (rd1, e1, i1) = skip_char-Leaves rd r b'.' (b' ' ∷ cs) i in
    let (rd2, e2, i2) = reader_peek-Leaves rd1 r (b' ' ∷ cs) i1 in (rd2, rw e1 (rw e2 refl), i2)

-- At a dot before a space, the last cdr is read.
pub dot_round :
    (read : Reading Mobj) (g : ℕ) (cs : List ℕ) (h t : Mobj) (rd : Reader) (r : Runtime)
    → Leaves (skip_whitespace g) rd r tt (b'.' ∷ b' ' ∷ cs) r
    → (rd' : Reader) × (looping read (suc g) h t rd r ≡ dotted_cdr read g b'(' h t rd' r)
      × Input rd' (b' ' ∷ cs)
dot_round read g cs h t rd r (rd1, e1, i1) =
    let (rd2, e2, i2) = reader_peek-Leaves rd1 r (b'.' ∷ b' ' ∷ cs) i1 in
    let again = λ (h' t' : Mobj). looping read g h' t' in
    let (rd3, e3, i3) = list_dot-space read g again h t cs rd2 r i2 in
    (rd3, rw (list_loop_round read g h t, e1, e2) (rw (list_step-dot read g again h t) e3), i3)

-- What stands for the rest of a list has been joined to the cell at `q`, whose car is `a`; everything
-- else is as it was.
pub record ReadsTail (m : Reading Mobj) (rd : Reader) (r : Runtime) (h : Mobj) (q : Addr) (a : Mobj)
    (d : Datum) (rest : List ℕ) : Type 0 where
  pub cdr : Mobj
  pub reader : Reader
  pub after : Runtime
  pub returns : m rd r ≡ got h reader after
  pub input : Input reader rest
  pub table : IsTable after
  pub kept : KeepsBut q r after
  pub joined : after.heap q ≡ some (cons_cell a cdr)
  pub shows : Shows r.heap after d cdr

pub first_cell :
    (x : Mobj) (rd : Reader) (r : Runtime)
    → append_cell mnull mnull x rd r
      ≡ got (pair r.ap, pair r.ap) rd (allocated (cons_cell x mnull) r)
unfolding append_cell mcons
first_cell x rd r = refl

mcons_lem :
    (x : Mobj) (r : Runtime) → mcons x mnull r ≡ ok (pair r.ap) (allocated (cons_cell x mnull) r)
unfolding mcons
mcons_lem x r = refl

pub next_cell :
    (x z a : Mobj) (p q : Addr) (rd : Reader) (r : Runtime)
    → IsTable r
    → r.heap q ≡ some (cons_cell a z)
    → append_cell (pair p) (pair q) x rd r
      ≡ got
          (pair p, pair r.ap)
          rd
          (write (allocated (cons_cell x mnull) r) q (cons_cell a (pair r.ap)))
unfolding append_cell
next_cell x z a p q rd r table here =
    let there = gc_alloc-Keeps (cons_cell x mnull) table.fresh q _ here in
    rw (mcons_lem x r) (rw (mset_cdr-at (allocated (cons_cell x mnull) r) q there (pair r.ap)) refl)

pub ReadsTail-by :
    {m m' : Reading Mobj} {rd rd' : Reader} {r : Runtime} {h : Mobj} {q : Addr} {a : Mobj}
    {d : Datum} {rest : List ℕ}
    → m rd r ≡ m' rd' r
    → ReadsTail m' rd' r h q a d rest
    → ReadsTail m rd r h q a d rest
ReadsTail-by e k = record {
  cdr = k.cdr;
  reader = k.reader;
  after = k.after;
  returns = e ∙ k.returns;
  input = k.input;
  table = k.table;
  kept = k.kept;
  joined = k.joined;
  shows = k.shows;
}
