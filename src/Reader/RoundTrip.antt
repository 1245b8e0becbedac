-- ===== src/Reader/RoundTrip.antt =====
-- src/read.c and src/write.c: what Mwrite puts out reads back as the same datum.
use mathlib.Core.List.{append_assoc}
use mathlib.Core.Path.{subst}
use minim.Base.{
  ℕ, zero, suc, ◌+◌, ◌<◌, ◌≡◌, none, refl, sym, ap, ◌∙◌, Bool, true, false, List, ◌∷◌, ◌++◌, length,
  length-append, arith, if◌then◌else◌,
}
use minim.Object.{Mobj, mnull, pair}
use minim.Runtime.{Runtime, ok}
use minim.Symbol.Laws.{IsTable}
use minim.Writer.{DoubleText, mwrite}
use minim.Writer.Data.{
  Datum, number, character, truth, empty, text, identifier, cons, Shows, render, SmallChars, size,
  mwrite-render,
}
use minim.Reader.{Reader, Reading, ◌>>=◌, is_delimiter, isspace}
use minim.Reader.Tokens.{skip_whitespace}
use minim.Reader.Datum.{mread, read_datum, list_next}
use minim.Reader.Input.{Input, Leaves, head?}
use minim.Reader.Lexing.{skip_whitespace_dense, skip_whitespace_space}
use minim.Reader.Dispatch.{ReadsAs, ReadsAs-by}
use minim.Reader.Leaf.{number-ReadsAs, identifier-ReadsAs, text-ReadsAs}
use minim.Reader.Hash.{character-ReadsAs, truth-ReadsAs}
use minim.Reader.Lists.{looping, ReadsTail-by, element_round, close_round}
use minim.Reader.Cells.{
  cell_at, cell_at-IsTable, cell_at-here, cons-ReadsAs, cons-ReadsTail, linked, linked-IsTable,
  linked_cell,
}
use minim.Reader.Ends.{
  Claim, ReadsDatum, ReadsRest, Start-dense, empty-ReadsAs, leaf-ReadsRest, open_round, spend,
}
use minim.Reader.Starts.{IsReadable, Start, render-Start}

rest_delimits : (d : Datum) (rest : List ℕ) → is_delimiter (head? (render true d ++ rest)) ≡ true
unfolding render is_delimiter isspace
rest_delimits empty rest = refl
rest_delimits _ rest = refl

number-ReadsDatum : (n : ℕ) → IsReadable (number n) → ReadsDatum (number n)
unfolding render
number-ReadsDatum n h fuel rest rd r table stop enough i =
    spend (λ f. ReadsAs (read_datum f) rd r (number n) rest)
      (λ f few. number-ReadsAs f n rest rd r table h stop few i) fuel enough

character-ReadsDatum : (c : ℕ) → IsReadable (character c) → ReadsDatum (character c)
unfolding render
character-ReadsDatum c h fuel rest rd r table stop enough i =
    spend (λ f. ReadsAs (read_datum f) rd r (character c) rest)
      (λ f few. character-ReadsAs f c rest rd r table h stop few i) fuel enough

truth-ReadsDatum : (b : Bool) → ReadsDatum (truth b)
unfolding render
truth-ReadsDatum b fuel rest rd r table stop enough i =
    spend (λ f. ReadsAs (read_datum f) rd r (truth b) rest)
      (λ f few. truth-ReadsAs f b rest rd r table stop i) fuel enough

text-ReadsDatum : (bs : List ℕ) → IsReadable (text bs) → ReadsDatum (text bs)
unfolding render
text-ReadsDatum bs (ascii, room) fuel rest rd r table stop enough i =
    spend (λ f. ReadsAs (read_datum f) rd r (text bs) rest)
      (λ f few. text-ReadsAs f bs rest rd r table ascii room few i) fuel enough

identifier-ReadsDatum : (s : List ℕ) → IsReadable (identifier s) → ReadsDatum (identifier s)
unfolding render
identifier-ReadsDatum s (t, no_number) fuel rest rd r table stop enough i =
    spend (λ f. ReadsAs (read_datum f) rd r (identifier s) rest)
      (λ f few. identifier-ReadsAs f s rest rd r table t no_number stop few i) fuel enough

empty-ReadsDatum : ReadsDatum empty
unfolding render
empty-ReadsDatum zero rest rd r table stop enough i = absurd (omega arith)
empty-ReadsDatum (suc zero) rest rd r table stop enough i = absurd (omega arith)
empty-ReadsDatum (suc (suc zero)) rest rd r table stop enough i = absurd (omega arith)
empty-ReadsDatum (suc (suc (suc f))) rest rd r table stop enough i =
    empty-ReadsAs f rest rd r table i

empty-ReadsRest : ReadsRest empty
unfolding render isspace
empty-ReadsRest fuel zero rest rd r h q car table here hf hg i = absurd (omega arith)
empty-ReadsRest fuel (suc zero) rest rd r h q car table here hf hg i = absurd (omega arith)
empty-ReadsRest fuel (suc (suc g)) rest rd r h q car table here hf hg i =
    let (rd1, e1, i1) =
      close_round (read_datum fuel) (suc g) rest (pair h) (pair q) rd r
        (skip_whitespace_dense g rd r (b')' ∷ rest) refl i) in
    record {
      cdr = mnull;
      reader = rd1;
      after = r;
      returns = e1;
      input = i1;
      table = table;
      kept = λ p o ne e. e;
      joined = here;
      shows = refl;
    }

pub length_pos : (d : Datum) → IsReadable d → 0 < length (render false d)
length_pos d h = let s = render-Start d h in rw s.split (omega arith)

rest_length_pos : (d : Datum) → 0 < length (render true d)
unfolding render
rest_length_pos empty = omega arith
rest_length_pos _ = omega arith

pair_split :
    (a b : Datum) (tail : Bool) (rest : List ℕ)
    → render tail (cons a b) ++ rest
      ≡ (if tail then b' ' else b'(') ∷ (render false a ++ (render true b ++ rest))
unfolding render
pair_split a b tail rest = rw (append_assoc (render false a) (render true b) rest) refl

pair_length :
    (a b : Datum) (tail : Bool)
    → length (render tail (cons a b)) ≡ suc (length (render false a) + length (render true b))
unfolding render
pair_length a b tail = ap suc (length-append (render false a) (render true b))

-- One element is read at its first character, behind what the loop skips.
element_read :
    (g : ℕ) (s cs : List ℕ) (read : Reading Mobj) (h t : Mobj) (rd : Reader) (r : Runtime)
    → Start s
    → Leaves (skip_whitespace g) rd r tt (s ++ cs) r
    → (rd' : Reader) × (looping read (suc g) h t rd r
        ≡ (read >>= λ x. list_next (λ (h' t' : Mobj). looping read g h' t') h t x) rd' r)
      × Input rd' (s ++ cs)
element_read g s cs read h t rd r start skipped =
    let joined : s ++ cs ≡ start.first ∷ (start.more ++ cs) = rw start.split refl in
    let skipped' : Leaves (skip_whitespace g) rd r tt (start.first ∷ (start.more ++ cs)) r =
      subst (λ (l : List ℕ). Leaves (skip_whitespace g) rd r tt l r) joined skipped in
    let (rd', e, i) =
      element_round read g start.first (start.more ++ cs) h t rd r start.no_close start.no_dot
        skipped' in
    (rd', e, subst (λ (l : List ℕ). Input rd' l) (sym joined) i)

-- The first element of a list and the rest of it.
cons-ReadsDatum :
    (a b : Datum) → IsReadable (cons a b) → ReadsDatum a → ReadsRest b → ReadsDatum (cons a b)
cons-ReadsDatum a b (ha, hb) first others zero rest rd r table stop enough i = absurd (omega arith)
cons-ReadsDatum a b (ha, hb) first others (suc zero) rest rd r table stop enough i =
    absurd (omega arith)
cons-ReadsDatum a b (ha, hb) first others (suc (suc zero)) rest rd r table stop enough i =
    absurd (omega arith)
cons-ReadsDatum a b (ha, hb) first others (suc (suc (suc f))) rest rd r table stop enough i =
    let read = read_datum (suc (suc f)) in
    let others_text = render true b ++ rest in
    let (rd1, e1, i1) =
      open_round (suc f) (render false a ++ others_text) rd r
        (rw (pair_split a b false rest) at i) in
    let start = render-Start a ha in
    let (rd2, e2, i2) =
      element_read (suc f) (render false a) others_text read mnull mnull rd1 r start
        (skip_whitespace_dense f rd1 r _ (Start-dense start others_text) i1) in
    let la = length_pos a ha in
    let lb = rest_length_pos b in
    let long = pair_length a b false in
    let k = first (suc (suc f)) others_text rd2 r table (rest_delimits b rest) (omega arith) i2 in
    let t =
      others (suc (suc f)) (suc f) rest k.reader (cell_at k.value k.after) k.after.ap k.after.ap
        k.value (cell_at-IsTable k.value k.after k.table) (cell_at-here k.value k.after k.table)
        (omega arith) (omega arith) k.input in
    ReadsAs-by (e1 ∙ e2) (
      cons-ReadsAs read (λ (h' t' : Mobj). looping read (suc f) h' t') a b others_text rest rd2 r k
        t)

-- A later element, likewise.
cons-ReadsRest :
    (a b : Datum) → IsReadable (cons a b) → ReadsDatum a → ReadsRest b → ReadsRest (cons a b)
cons-ReadsRest a b (ha, hb) first others fuel zero rest rd r h q car table here hf hg i =
    absurd (omega arith)
cons-ReadsRest a b (ha, hb) first others fuel (suc zero) rest rd r h q car table here hf hg i =
    absurd (omega arith)
cons-ReadsRest a b (ha, hb) first others fuel (suc (suc zero)) rest rd r h q car table here hf hg
      i =
    absurd (omega arith)
cons-ReadsRest a b (ha, hb) first others fuel (suc (suc (suc g))) rest rd r h q car table here hf hg
      i =
    let read = read_datum fuel in
    let others_text = render true b ++ rest in
    let start = render-Start a ha in
    let (rd2, e2, i2) =
      element_read (suc (suc g)) (render false a) others_text read (pair h) (pair q) rd r start (
        skip_whitespace_space g rd r _ (Start-dense start others_text)
          (rw (pair_split a b true rest) at i)) in
    let la = length_pos a ha in
    let lb = rest_length_pos b in
    let long = pair_length a b true in
    let k = first fuel others_text rd2 r table (rest_delimits b rest) (omega arith) i2 in
    let again = λ (h' t' : Mobj). looping read (suc (suc g)) h' t' in
    let t =
      others fuel (suc (suc g)) rest k.reader
        (linked read again a b others_text rest rd2 r k h q car here) h k.after.ap k.value
        (linked-IsTable read again a b others_text rest rd2 r k h q car here)
        (linked_cell read again a b others_text rest rd2 r k h q car here) (omega arith)
        (omega arith) k.input in
    ReadsTail-by e2 (cons-ReadsTail read again a b others_text rest rd2 r k h q car here t)

reads : (tail : Bool) (d : Datum) → IsReadable d → Claim tail d
unfolding render
reads false (number n) h = number-ReadsDatum n h
reads false (character c) h = character-ReadsDatum c h
reads false (truth b) h = truth-ReadsDatum b
reads false empty h = empty-ReadsDatum
reads false (text bs) h = text-ReadsDatum bs h
reads false (identifier s) h = identifier-ReadsDatum s h
reads false (cons a b) (ha, hb) = cons-ReadsDatum a b (ha, hb) (reads false a ha) (reads true b hb)
reads true (number n) h = leaf-ReadsRest (number n) h refl (number-ReadsDatum n h)
reads true (character c) h = leaf-ReadsRest (character c) h refl (character-ReadsDatum c h)
reads true (truth b) h = leaf-ReadsRest (truth b) h refl (truth-ReadsDatum b)
reads true empty h = empty-ReadsRest
reads true (text bs) h = leaf-ReadsRest (text bs) h refl (text-ReadsDatum bs h)
reads true (identifier s) h = leaf-ReadsRest (identifier s) h refl (identifier-ReadsDatum s h)
reads true (cons a b) (ha, hb) = cons-ReadsRest a b (ha, hb) (reads false a ha) (reads true b hb)

-- Mread takes a readable datum's text, before a delimiter, EOF included, for what stands for the datum:
-- with fuel for the bytes of the text it returns such a value, whose pairs are new, leaves what follows
-- the text, and keeps the intern table well formed and every object that was there.
pub mread-render :
    (d : Datum) (fuel : ℕ) (rest : List ℕ) (rd : Reader) (r : Runtime)
    → IsTable r
    → IsReadable d
    → is_delimiter (head? rest) ≡ true
    → length (render false d) + 2 < fuel
    → Input rd (render false d ++ rest)
    → ReadsAs (mread fuel) rd r d rest
unfolding mread
mread-render d fuel rest rd r table h stop enough i =
    reads false d h fuel rest rd r table stop enough i

pub SmallChars-IsReadable : (d : Datum) → IsReadable d → SmallChars d
SmallChars-IsReadable (character c) h = omega arith
SmallChars-IsReadable (cons a b) (ha, hb) = (SmallChars-IsReadable a ha, SmallChars-IsReadable b hb)
SmallChars-IsReadable _ h = tt

-- What Mwrite puts out for a value that stands for a readable datum, Mread takes for the same datum.
pub mread-mwrite :
    (dt : DoubleText) (d : Datum) (wfuel fuel : ℕ) (v : Mobj) (s rest : List ℕ) (rd : Reader)
    (r r' : Runtime)
    → IsTable r
    → IsReadable d
    → Shows (λ _. none) r d v
    → size d < wfuel
    → mwrite dt wfuel v r ≡ ok s r'
    → is_delimiter (head? rest) ≡ true
    → length s + 2 < fuel
    → Input rd (s ++ rest)
    → ReadsAs (mread fuel) rd r d rest
mread-mwrite dt d wfuel fuel v s rest rd r r' table h shows few e stop enough i =
    let text : render false d ≡ s =
      cc (mwrite-render dt d (λ _. none) wfuel v r (SmallChars-IsReadable d h) shows few, e) in
    mread-render d fuel rest rd r table h stop (rw text enough) (rw text i)
