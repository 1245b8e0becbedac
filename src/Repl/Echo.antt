-- ===== src/Repl/Echo.antt =====
-- src/main.c: the loop on a script of literals.
use mathlib.Core.List.{append_assoc, append-nil}
use native.Mathlib.Nat.{zero-add}
use minim.Base.{
  ℕ, zero, suc, ◌+◌, ◌<◌, ◌≡◌, refl, ap, ◌∙◌, true, false, Option, get_elem?, List, [], ◌∷◌, ◌++◌,
  length, length-append, arith,
}
use minim.Object.{Mobj}
use minim.Runtime.{Runtime, Cmd, PrimFn, ok}
use minim.Runtime.Laws.{IsFresh}
use minim.Symbol.Laws.{IsTable}
use minim.Eval.Apply.{meval}
use minim.Shutdown.{mshutdown, mshutdown-IsShut, IsShut}
use minim.Prims.Lists.{meofp}
use minim.Prims.Table.{minit}
use minim.Prims.Start.{minit-SetUp}
use minim.Writer.{DoubleText, mwrite}
use minim.Writer.Data.{Datum, cons, render, size, mwrite-render}
use minim.Reader.{mreader_init_file, Reader, got, is_delimiter, isspace}
use minim.Reader.Datum.{mread}
use minim.Reader.Input.{Input, head?}
use minim.Reader.Heap.{Shows-Keeps}
use minim.Reader.Starts.{IsReadable, render-Start}
use minim.Reader.Ends.{Start-dense}
use minim.Reader.Dispatch.{ReadsAs, ReadsAs-by, read_datum_newline, read_datum_eof}
use minim.Reader.RoundTrip.{length_pos, mread-render, SmallChars-IsReadable}
use minim.Repl.{
  closed, mvoidp, after_write, after_eval, after_read, repl, main, started, ended, shut,
}
use minim.Repl.Literals.{IsLiteral, IsLiteral-evaluates, meval_literal}

-- Each datum behind a newline, and one at the end.
abbrev pub script : List Datum → List ℕ
script [] = b'\n' ∷ []
script (d ∷ ds) = b'\n' ∷ (render false d ++ script ds)

-- Each datum on a line of its own.
abbrev pub lines : List Datum → List ℕ
lines [] = []
lines (d ∷ ds) = render false d ++ (b'\n' ∷ lines ds)

abbrev pub AllLiteral : List Datum → Type 0
AllLiteral [] = Unit {0}
AllLiteral (d ∷ ds) = IsLiteral d × IsReadable d × AllLiteral ds

literal_size : (d : Datum) → IsLiteral d → size d ≡ 1
literal_size (cons a b) h = elim h [ ]
literal_size _ h = refl

script_delimits : (ds : List Datum) → is_delimiter (head? (script ds)) ≡ true
unfolding is_delimiter isspace
script_delimits [] = refl
script_delimits (d ∷ ds) = refl

script_pos : (ds : List Datum) → 0 < length (script ds)
script_pos [] = omega arith
script_pos (d ∷ ds) = omega arith

length-script :
    (d : Datum) (ds : List Datum)
    → length (script (d ∷ ds)) ≡ suc (length (render false d) + length (script ds))
length-script d ds = ap suc (length-append (render false d) (script ds))

one_line : (out s rest : List ℕ) → (out ++ (s ++ b'\n' ∷ [])) ++ rest ≡ out ++ (s ++ (b'\n' ∷ rest))
one_line out s rest = simp append_assoc

module _ (dt : DoubleText) (call_prim : PrimFn → Mobj → Cmd Mobj) where
  -- Behind a newline a datum is read as at the front.
  read_line :
      (fuel : ℕ) (d : Datum) (rest : List ℕ) (rd : Reader) (r : Runtime)
      → IsTable r
      → IsReadable d
      → is_delimiter (head? rest) ≡ true
      → length (render false d) + 2 < suc (suc (suc fuel))
      → Input rd (b'\n' ∷ (render false d ++ rest))
      → ReadsAs (mread (suc (suc (suc fuel)))) rd r d rest
  unfolding mread
  read_line fuel d rest rd r table h stop enough i =
      let (rd1, e1, i1) =
        read_datum_newline fuel (render false d ++ rest) rd r (Start-dense (render-Start d h) rest)
          i in
      ReadsAs-by e1 (mread-render d (suc (suc (suc fuel))) rest rd1 r table h stop enough i1)

  round_prints :
      (fuel : ℕ) (out s : List ℕ) (v : Mobj) (rd rd' : Reader) (r r' t : Runtime)
      → mread fuel rd r ≡ got v rd' r'
      → meofp v ≡ false
      → meval call_prim fuel v r' ≡ ok v t
      → mvoidp v ≡ false
      → mwrite dt fuel v t ≡ ok s t
      → repl dt call_prim (suc fuel) out rd r
        ≡ repl dt call_prim fuel (out ++ (s ++ b'\n' ∷ [])) rd' t
  unfolding repl after_read after_eval after_write
  round_prints fuel out s v rd rd' r r' t read not_eof evaluated not_void wrote =
      rw read (rw not_eof (rw evaluated (rw not_void (rw wrote refl))))

  -- One turn at a literal.
  repl_literal :
      (f : ℕ) (out : List ℕ) (d : Datum) (rest : List ℕ) (rd : Reader) (r : Runtime)
      → IsTable r
      → IsLiteral d
      → IsReadable d
      → is_delimiter (head? rest) ≡ true
      → length (render false d) + 2 < suc (suc (suc f))
      → Input rd (b'\n' ∷ (render false d ++ rest))
      → (rd' : Reader) × (t : Runtime) × (repl dt call_prim (suc (suc (suc (suc f)))) out rd r
          ≡ repl dt call_prim (suc (suc (suc f))) (out ++ (render false d ++ b'\n' ∷ [])) rd' t)
        × IsTable t
        × Input rd' rest
  repl_literal f out d rest rd r table lit h stop enough i =
      let k = read_line f d rest rd r table h stop enough i in
      let (literal, not_null, not_void, not_eof) =
        IsLiteral-evaluates r.heap d k.value k.after lit k.shows in
      let (t, evaluated, table', kept) =
        meval_literal call_prim r.heap d k.value f k.after k.table lit k.shows in
      let wrote =
        mwrite-render dt d r.heap (suc (suc (suc f))) k.value t (SmallChars-IsReadable d h)
          (Shows-Keeps r.heap k.after t d k.value kept k.shows)
          (omega (arith, literal_size d lit)) in
      (
        k.reader,
        t,
        round_prints (suc (suc (suc f))) out _ k.value rd k.reader r k.after t k.returns not_eof
            evaluated not_void wrote,
        table',
        k.input,
      )

  repl_eof :
      (f : ℕ) (out : List ℕ) (rd : Reader) (r : Runtime)
      → Input rd (b'\n' ∷ [])
      → (rd' : Reader) × (repl dt call_prim (suc (suc (suc (suc f)))) out rd r ≡ closed out rd' r)
  unfolding repl after_read mread
  repl_eof f out rd r i =
      let (rd1, e1, i1) = read_datum_newline f [] rd r refl i in
      let (rd2, e2, i2) = read_datum_eof (suc f) rd1 r i1 in (rd2, rw (e1 ∙ e2) refl)

  -- On a script of literals, with enough fuel, the loop writes each of them, in their order, on a line of
  -- its own, and ends at EOF.
  pub repl-lines :
      (ds : List Datum) (fuel : ℕ) (out : List ℕ) (rd : Reader) (r : Runtime)
      → IsTable r
      → AllLiteral ds
      → length (script ds) + 3 < fuel
      → Input rd (script ds)
      → (rd' : Reader) × (t : Runtime) × (repl dt call_prim fuel out rd r
          ≡ closed (out ++ lines ds) rd' t)
        × IsTable t
  repl-lines ds zero out rd r table lit enough i = absurd (omega arith)
  repl-lines ds (suc zero) out rd r table lit enough i = absurd (omega arith)
  repl-lines ds (suc (suc zero)) out rd r table lit enough i = absurd (omega arith)
  repl-lines ds (suc (suc (suc zero))) out rd r table lit enough i = absurd (omega arith)
  repl-lines [] (suc (suc (suc (suc f)))) out rd r table lit enough i =
      let (rd', e) = repl_eof f out rd r i in (rd', r, rw append-nil e, table)
  repl-lines (d ∷ ds) (suc (suc (suc (suc f)))) out rd r table (literal, readable, lit) enough i =
      let few = length-script d ds in
      let last = script_pos ds in
      let (rd1, t1, e1, table1, i1) =
        repl_literal f out d (script ds) rd r table literal readable (script_delimits ds)
          (omega arith) i in
      let (rd2, t2, e2, table2) =
        repl-lines ds (suc (suc (suc f))) (out ++ (render false d ++ b'\n' ∷ [])) rd1 t1 table1 lit
          (omega (arith, length_pos d readable)) i1 in
      (
        rd2,
        t2,
        e1 ∙ e2 ∙ ap (λ o. closed o rd2 t2) (one_line out (render false d) (lines ds)),
        table2,
      )

  main_lem :
      (fuel : ℕ) (stdin : ℕ → Option ℕ) (out : List ℕ) (rd : Reader) (r s t u : Runtime)
      → minit r ≡ ok tt s
      → repl dt call_prim fuel [] (mreader_init_file stdin 0) s ≡ closed out rd t
      → mshutdown t ≡ ok tt u
      → main dt call_prim fuel stdin r ≡ closed out rd u
  unfolding main started ended shut
  main_lem fuel stdin out rd r s t u e loop off = rw e (rw loop (rw off refl))

  -- From a fresh heap, where stdin gives a script of literals and then EOF: with fuel above the length of
  -- the script, the program puts out each literal, in their order, on a line of its own, and ends at EOF
  -- behind Mshutdown, which leaves no intern table and no object.
  pub main-lines :
      (ds : List Datum) (fuel : ℕ) (stdin : ℕ → Option ℕ) (r : Runtime)
      → IsFresh r
      → AllLiteral ds
      → length (script ds) + 3 < fuel
      → ((i : ℕ) → stdin i ≡ get_elem? (script ds) i)
      → (rd : Reader) × (t : Runtime) × (main dt call_prim fuel stdin r ≡ closed (lines ds) rd t)
        × IsShut t
  unfolding mreader_init_file
  main-lines ds fuel stdin r fresh lit enough gives =
      let (s, xs, done, setup) = minit-SetUp r fresh in
      let ahead : Input (mreader_init_file stdin 0) (script ds) = record {
        ahead = λ i. rw (zero-add i) (gives i);
      } in
      let (rd, t, e, table) =
        repl-lines ds fuel [] (mreader_init_file stdin 0) s setup.table lit enough ahead in
      let (u, off, gone) = mshutdown-IsShut t table in
      (rd, u, main_lem fuel stdin (lines ds) rd r s t u done e off, gone)
