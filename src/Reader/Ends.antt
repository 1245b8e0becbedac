-- ===== src/Reader/Ends.antt =====
-- src/read.c: the end of a list, dotted or not, as src/write.c writes it.
use mathlib.Core.List.{append_assoc}
use minim.Base.{
  ℕ, zero, suc, ◌+◌, ◌<◌, ◌≡◌, refl, ap, ◌∙◌, Bool, true, false, some, List, [], ◌∷◌, ◌++◌, length,
  length-append, arith, if◌then◌else◌, codes,
}
use minim.Object.{Addr, Mobj, mnull, pair, cons_cell}
use minim.Runtime.{Runtime, ok, write, mset_cdr}
use minim.Symbol.Laws.{IsTable}
use minim.Writer.Data.{Datum, empty, render, placed}
use minim.Reader.{Reader, Reading, got, is_delimiter, is_close_paren, isspace, matching_paren}
use minim.Reader.Starts.{Start, IsReadable, render-Start}
use minim.Reader.Tokens.{skip_whitespace}
use minim.Reader.Datum.{read_datum, datum_step, dotted_cdr, read_list}
use minim.Reader.Input.{Input, Leaves, head?, reader_get-Leaves}
use minim.Reader.Lexing.{is_dense, skip_whitespace_dense, skip_whitespace_space}
use minim.Reader.Dispatch.{ReadsAs, Leaves-ReadsAs, read_datum_round}
use minim.Reader.Lists.{looping, ReadsTail, ReadsTail-by, close_round, dot_round}
use minim.Reader.Heap.{KeepsBut, mset_cdr-at, rewritten-KeepsBut, rewritten-IsTable, Shows-KeepsBut}

datum_step-open :
    (read : Reading Mobj) (fuel : ℕ)
    → datum_step read fuel (some b'(') ≡ looping read fuel mnull mnull
unfolding datum_step read_list
datum_step-open read fuel = refl

-- The dispatch at an opening parenthesis.
pub open_round :
    (fuel : ℕ) (cs : List ℕ) (rd : Reader) (r : Runtime)
    → Input rd (b'(' ∷ cs)
    → (rd' : Reader) × (read_datum (suc (suc fuel)) rd r
        ≡ looping (read_datum (suc fuel)) (suc fuel) mnull mnull rd' r)
      × Input rd' cs
unfolding isspace
open_round fuel cs rd r i =
    let (rd1, e1, i1) = read_datum_round fuel b'(' cs rd r refl i in
    (rd1, e1 ∙ rw (datum_step-open (read_datum (suc fuel)) (suc fuel)) refl, i1)

pub empty-ReadsAs :
    (fuel : ℕ) (rest : List ℕ) (rd : Reader) (r : Runtime)
    → IsTable r
    → Input rd (codes "()" ++ rest)
    → ReadsAs (read_datum (suc (suc (suc fuel)))) rd r empty rest
unfolding isspace
empty-ReadsAs fuel rest rd r table i =
    let (rd1, e1, i1) = open_round (suc fuel) (b')' ∷ rest) rd r i in
    let (rd2, e2, i2) =
      close_round (read_datum (suc (suc fuel))) (suc fuel) rest mnull mnull rd1 r
        (skip_whitespace_dense fuel rd1 r (b')' ∷ rest) refl i1) in
    Leaves-ReadsAs _ rd r empty rest mnull table refl (rd2, e1 ∙ e2, i2)

-- The parenthesis behind a dotted cdr.
dotted_end :
    (g : ℕ) (read : Reading Mobj) (h q : Addr) (v : Mobj) (rest : List ℕ) (rd rd1 rd2 : Reader)
    (r s t : Runtime)
    → skip_whitespace (suc g) rd r ≡ got tt rd1 r
    → read rd1 r ≡ got v rd2 s
    → mset_cdr (pair q) v s ≡ ok tt t
    → Input rd2 (b')' ∷ rest)
    → Leaves (dotted_cdr read (suc g) b'(' (pair h) (pair q)) rd r (pair h) rest t
unfolding dotted_cdr is_close_paren matching_paren isspace
dotted_end g read h q v rest rd rd1 rd2 r s t e1 e2 e3 i =
    let (rd3, e4, i3) = skip_whitespace_dense g rd2 t (b')' ∷ rest) refl i in
    let (rd4, e5, i4) = reader_get-Leaves rd3 t (b')' ∷ rest) i3 in
    (rd4, rw e1 (rw e2 (rw e3 (rw e4 (rw e5 refl)))), i4)

-- A datum that is no pair, at the end of a list: behind a dot.
dotted-ReadsTail :
    (g : ℕ) (read : Reading Mobj) (h q : Addr) (car : Mobj) (d : Datum) (rest : List ℕ)
    (rd rd1 : Reader) (r : Runtime)
    → r.heap q ≡ some (cons_cell car mnull)
    → skip_whitespace (suc g) rd r ≡ got tt rd1 r
    → (k : ReadsAs read rd1 r d (b')' ∷ rest))
    → ReadsTail (dotted_cdr read (suc g) b'(' (pair h) (pair q)) rd r (pair h) q car d rest
dotted-ReadsTail g read h q car d rest rd rd1 r here e k =
    let here' = k.kept q _ here in
    let after = write k.after q (cons_cell car k.value) in
    let (rd2, e2, i2) =
      dotted_end g read h q k.value rest rd rd1 k.reader r k.after after e k.returns
        (mset_cdr-at k.after q here' k.value) k.input in
    let kept : KeepsBut q k.after after = rewritten-KeepsBut k.after q here' k.value in
    record {
      cdr = k.value;
      reader = rd2;
      after = after;
      returns = e2;
      input = i2;
      table = rewritten-IsTable k.after q here' k.value k.table;
      kept = λ p o ne f. kept p o ne (k.kept p o f);
      joined = ground arith;
      shows = Shows-KeepsBut r.heap q k.after after d k.value here here' kept k.shows;
    }

-- With fuel for the bytes of the text, the datum is read.
abbrev pub ReadsDatum : Datum → Type 0
ReadsDatum d =
    (fuel : ℕ) (rest : List ℕ) (rd : Reader) (r : Runtime)
    → IsTable r
    → is_delimiter (head? rest) ≡ true
    → length (render false d) + 2 < fuel
    → Input rd (render false d ++ rest)
    → ReadsAs (read_datum fuel) rd r d rest

-- The same for the rest of a list.
abbrev pub ReadsRest : Datum → Type 0
ReadsRest d =
    (fuel g : ℕ) (rest : List ℕ) (rd : Reader) (r : Runtime) (h q : Addr) (car : Mobj)
    → IsTable r
    → r.heap q ≡ some (cons_cell car mnull)
    → length (render true d) + 2 < fuel
    → length (render true d) + 2 < g
    → Input rd (render true d ++ rest)
    → ReadsTail (looping (read_datum fuel) g (pair h) (pair q)) rd r (pair h) q car d rest

abbrev pub Claim : Bool → Datum → Type 0
Claim tail d = if tail then ReadsRest d else ReadsDatum d

-- Fuel above two is a successor's successor.
pub spend :
    (P : ℕ → Type 0) {n : ℕ} → ((f : ℕ) → n < f → P (suc (suc f))) → (f : ℕ) → n + 2 < f → P f
spend P k zero h = absurd (omega arith)
spend P k (suc zero) h = absurd (omega arith)
spend P k (suc (suc f)) h = k f (omega arith)

head?-Start : {s : List ℕ} (k : Start s) (rest : List ℕ) → head? (s ++ rest) ≡ some k.first
head?-Start k rest = rw k.split refl

pub Start-dense : {s : List ℕ} (k : Start s) (rest : List ℕ) → is_dense (head? (s ++ rest)) ≡ true
Start-dense k rest = rw (head?-Start k rest) k.dense

close_delimits : is_delimiter (some b')') ≡ true
unfolding is_delimiter isspace
close_delimits = refl

dot_dense : is_dense (some b'.') ≡ true
unfolding isspace
dot_dense = refl

leaf_rest :
    (g : ℕ) (s : List ℕ) (read : Reading Mobj) (h q : Addr) (car : Mobj) (d : Datum) (rest : List ℕ)
    (rd : Reader) (r : Runtime)
    → Start s
    → ((rd' : Reader) → Input rd' (s ++ b')' ∷ rest) → ReadsAs read rd' r d (b')' ∷ rest))
    → r.heap q ≡ some (cons_cell car mnull)
    → Input rd (placed true s ++ rest)
    → ReadsTail (looping read (suc (suc (suc g))) (pair h) (pair q)) rd r (pair h) q car d rest
leaf_rest g s read h q car d rest rd r start reads here i =
    let cs = s ++ b')' ∷ rest in
    let joined : placed true s ++ rest ≡ b' ' ∷ b'.' ∷ b' ' ∷ cs =
      rw (append_assoc s (b')' ∷ []) rest) refl in
    let i' : Input rd (b' ' ∷ b'.' ∷ b' ' ∷ cs) = rw joined at i in
    let spaces = skip_whitespace_space g rd r (b'.' ∷ b' ' ∷ cs) dot_dense i' in
    let (rd1, e1, i1) = dot_round read (suc (suc g)) cs (pair h) (pair q) rd r spaces in
    let (rd2, e2, i2) = skip_whitespace_space g rd1 r cs (Start-dense start (b')' ∷ rest)) i1 in
    ReadsTail-by e1 (dotted-ReadsTail (suc g) read h q car d rest rd1 rd2 r here e2 (reads rd2 i2))

pub leaf-ReadsRest :
    (d : Datum)
    → IsReadable d
    → render true d ≡ placed true (render false d)
    → ReadsDatum d
    → ReadsRest d
leaf-ReadsRest d h split reads fuel zero rest rd r hd q car table here hf hg i =
    absurd (omega arith)
leaf-ReadsRest d h split reads fuel (suc zero) rest rd r hd q car table here hf hg i =
    absurd (omega arith)
leaf-ReadsRest d h split reads fuel (suc (suc zero)) rest rd r hd q car table here hf hg i =
    absurd (omega arith)
leaf-ReadsRest d h split reads fuel (suc (suc (suc g))) rest rd r hd q car table here hf hg i =
    let few : length (render false d) + 2 < fuel =
      omega (arith, ap length split, length-append (render false d) (b')' ∷ [])) in
    leaf_rest g (render false d) (read_datum fuel) hd q car d rest rd r (render-Start d h)
      (λ rd' i'. reads fuel (b')' ∷ rest) rd' r table close_delimits few i') here (rw split at i)
