-- ===== src/Writer/Data.antt =====
-- src/write.c, `write_to` in write mode: the data that have a source-level syntax, how each is written,
-- and what it is on the heap. Doubles have none that the reader takes; vectors are left out here.
use minim.Base.{
  ℕ, zero, suc, ◌+◌, ◌<◌, ◌%◌, ◌^◌, ◌≡◌, refl, ◌∙◌, Bool, true, false, List, [], ◌∷◌, ◌++◌, Option,
  none, some, arith, codes, if◌then◌else◌,
}
use minim.Object.{
  Addr, Mobj, fixnum, mfalse, mtrue, mnull, char, pair, symbol, typed, cons_cell, name, str,
  sign_extend, mpairp, mnullp, Object,
}
use minim.Runtime.{Runtime, Cmd, ok, msymbol_name, load}
use minim.Runtime.Bind.{mcar-at, mcdr-at}
use minim.Equal.{mstring_bytes}
use minim.Writer.{
  DoubleText, writer_write, write_signed, canonical_char, write_char, quoted, mwrite, write_to,
  write_datum, write_pair, write_cdrs, write_cdr, write_tail, write_typed, write_string,
  escape_bytes,
}

pub data Datum : Type 0 where
  number character : ℕ → Datum
  truth : Bool → Datum
  empty : Datum
  text identifier : List ℕ → Datum
  cons : Datum → Datum → Datum

-- What stands for the datum, with its pairs at addresses that `base` does not use.
abbrev pub Shows : (Addr → Option Object) → Runtime → Datum → Mobj → Type 0
Shows base r (number n) v = v ≡ fixnum n
Shows base r (character c) v = v ≡ char c
Shows base r (truth true) v = v ≡ mtrue
Shows base r (truth false) v = v ≡ mfalse
Shows base r empty v = v ≡ mnull
Shows base r (text bs) v = (p : Addr) × (v ≡ typed p) × (r.heap p ≡ some (str bs))
Shows base r (identifier s) v = (p : Addr) × (v ≡ symbol p) × (r.heap p ≡ some (name s))
Shows base r (cons a b) v =
    (p : Addr) × (x : Mobj) × (y : Mobj) × (base p ≡ none)
    × (v ≡ pair p)
    × (r.heap p ≡ some (cons_cell x y))
    × Shows base r a x
    × Shows base r b y

-- The end of a list stands behind a dot, unless it is empty.
abbrev pub placed : Bool → List ℕ → List ℕ
placed tail s = if tail then codes " . " ++ (s ++ b')' ∷ []) else s

-- The text of a datum, or of a datum as the rest of a list.
unfoldable pub render : Bool → Datum → List ℕ
render tail (number n) = placed tail (write_signed (sign_extend n))
render tail (character c) = placed tail (canonical_char c)
render tail (truth b) = placed tail (if b then codes "#t" else codes "#f")
render tail empty = if tail then b')' ∷ [] else codes "()"
render tail (text bs) = placed tail (b'"' ∷ (escape_bytes bs ++ b'"' ∷ []))
render tail (identifier s) = placed tail s
render tail (cons a b) = (if tail then b' ' else b'(') ∷ (render false a ++ render true b)

abbrev pub size : Datum → ℕ
size (cons a b) = suc (size a + size b)
size _ = 1

-- A `unsigned int` holds the character codes.
abbrev pub SmallChars : Datum → Type 0
SmallChars (character c) = c < 2 ^ 32
SmallChars (cons a b) = SmallChars a × SmallChars b
SmallChars _ = Unit {0}

module _ (dt : DoubleText) where
  abbrev writing : ℕ → Mobj → Cmd (List ℕ)
  writing f v = write_to dt f writer_write v

  -- A value is written, or what stands in a cdr.
  abbrev write_as : Bool → ℕ → ℕ → Mobj → Cmd (List ℕ)
  write_as tail f g v = if tail then write_cdrs (λ (w : Mobj). writing f w) g v else writing f v

  writing_round :
      (f : ℕ) (v : Mobj) (r : Runtime)
      → writing (suc f) v r ≡ write_datum dt (λ (w : Mobj). writing f w) f writer_write v r
  unfolding write_to
  writing_round f v r = refl

  cdrs_end :
      (write : Mobj → Cmd (List ℕ)) (g : ℕ) (v : Mobj) (s : List ℕ) (r : Runtime)
      → mpairp v ≡ false
      → mnullp v ≡ false
      → write v r ≡ ok s r
      → write_cdrs write (suc g) v r ≡ ok (placed true s) r
  unfolding write_cdrs write_tail
  cdrs_end write g v s r no_pair not_null e = rw (no_pair, not_null) (rw e refl)

  write_leaf :
      (tail : Bool) (f g : ℕ) (v : Mobj) (s : List ℕ) (r : Runtime)
      → mpairp v ≡ false
      → mnullp v ≡ false
      → write_datum dt (λ (w : Mobj). writing f w) f writer_write v r ≡ ok s r
      → write_as tail (suc f) (suc g) v r ≡ ok (placed tail s) r
  write_leaf true f g v s r no_pair not_null e =
      cdrs_end (λ (w : Mobj). writing (suc f) w) g v s r no_pair not_null (writing_round f v r ∙ e)
  write_leaf false f g v s r no_pair not_null e = writing_round f v r ∙ e

  write_cdrs_pair :
      (write : Mobj → Cmd (List ℕ)) (g p : ℕ) (x y : Mobj) (s t : List ℕ) (r : Runtime)
      → r.heap p ≡ some (cons_cell x y)
      → write x r ≡ ok s r
      → write_cdrs write g y r ≡ ok t r
      → write_cdrs write (suc g) (pair p) r ≡ ok (b' ' ∷ (s ++ t)) r
  unfolding write_cdrs write_cdr
  write_cdrs_pair write g p x y s t r h e k =
      rw (mcar-at r p h) (rw e (rw (mcdr-at r p h) (rw k refl)))

  pair_round :
      (f p : ℕ) (r : Runtime)
      → writing (suc f) (pair p) r ≡ write_pair (λ (w : Mobj). writing f w) f (pair p) r
  unfolding write_to write_datum
  pair_round f p r = refl

  write_pair-at :
      (write : Mobj → Cmd (List ℕ)) (g p : ℕ) (x y : Mobj) (s t : List ℕ) (r : Runtime)
      → r.heap p ≡ some (cons_cell x y)
      → write x r ≡ ok s r
      → write_cdrs write g y r ≡ ok t r
      → write_pair write g (pair p) r ≡ ok (b'(' ∷ (s ++ t)) r
  unfolding write_pair
  write_pair-at write g p x y s t r h e k =
      rw (mcar-at r p h) (rw e (rw (mcdr-at r p h) (rw k refl)))

  at_constant :
      (tail : Bool) (f g : ℕ) (v : Mobj) (s : List ℕ) (r : Runtime)
      → mpairp v ≡ false
      → mnullp v ≡ false
      → ((write : Mobj → Cmd (List ℕ)) → write_datum dt write f writer_write v r ≡ ok s r)
      → write_as tail (suc f) (suc g) v r ≡ ok (placed tail s) r
  at_constant tail f g v s r no_pair not_null e =
      write_leaf tail f g v s r no_pair not_null (e (λ (w : Mobj). writing f w))

  cdrs_null :
      (write : Mobj → Cmd (List ℕ)) (g : ℕ) (r : Runtime)
      → write_cdrs write (suc g) mnull r ≡ ok (b')' ∷ []) r
  unfolding write_cdrs write_tail
  cdrs_null write g r = refl

  null_text : (f : ℕ) (r : Runtime) → writing (suc f) mnull r ≡ ok (codes "()") r
  unfolding write_to write_datum
  null_text f r = refl

  at_character :
      (f c : ℕ) (r : Runtime)
      → c < 2 ^ 32
      → write_datum dt (λ (w : Mobj). writing f w) f writer_write (char c) r
        ≡ ok (canonical_char c) r
  unfolding write_datum write_char
  at_character f c r h = let same : c % 2 ^ 32 ≡ c = omega arith in rw same refl

  at_text :
      (f p : ℕ) (bs : List ℕ) (r : Runtime)
      → r.heap p ≡ some (str bs)
      → write_datum dt (λ (w : Mobj). writing f w) f writer_write (typed p) r
        ≡ ok (b'"' ∷ (escape_bytes bs ++ b'"' ∷ [])) r
  unfolding write_datum write_typed write_string mstring_bytes quoted
  at_text f p bs r h = rw (h, load) (rw (h, load) refl)

  at_identifier :
      (f p : ℕ) (s : List ℕ) (r : Runtime)
      → r.heap p ≡ some (name s)
      → write_datum dt (λ (w : Mobj). writing f w) f writer_write (symbol p) r ≡ ok s r
  unfolding write_datum msymbol_name
  at_identifier f p s r h = rw (h, load) refl

  -- With fuel above its size, what stands for a datum is written as the datum's text.
  pub write_as-Shows :
      (tail : Bool) (d : Datum) (base : Addr → Option Object) (f g : ℕ) (v : Mobj) (r : Runtime)
      → SmallChars d
      → Shows base r d v
      → size d < f
      → size d < g
      → write_as tail f g v r ≡ ok (render tail d) r
  unfolding render
  write_as-Shows tail d base zero g v r small s hf hg = absurd (omega arith)
  write_as-Shows tail d base (suc f) zero v r small s hf hg = absurd (omega arith)
  write_as-Shows tail (number n) base (suc f) (suc g) v r small s hf hg = rw s (
      at_constant tail f g (fixnum n) (write_signed (sign_extend n)) r refl refl
        (λ write. unfold write_datum in refl))
  write_as-Shows tail (character c) base (suc f) (suc g) v r small s hf hg =
      rw s (write_leaf tail f g (char c) _ r refl refl (at_character f c r small))
  write_as-Shows tail (truth true) base (suc f) (suc g) v r small s hf hg =
      rw s
        (at_constant tail f g mtrue (codes "#t") r refl refl (λ write. unfold write_datum in refl))
  write_as-Shows tail (truth false) base (suc f) (suc g) v r small s hf hg =
      rw s
        (at_constant tail f g mfalse (codes "#f") r refl refl (λ write. unfold write_datum in refl))
  write_as-Shows true empty base (suc f) (suc g) v r small s hf hg =
      rw s (cdrs_null (λ (w : Mobj). writing (suc f) w) g r)
  write_as-Shows false empty base (suc f) (suc g) v r small s hf hg = rw s (null_text f r)
  write_as-Shows tail (text bs) base (suc f) (suc g) v r small (p, e, h) hf hg =
      rw e (write_leaf tail f g (typed p) _ r refl refl (at_text f p bs r h))
  write_as-Shows tail (identifier s) base (suc f) (suc g) v r small (p, e, h) hf hg =
      rw e (write_leaf tail f g (symbol p) _ r refl refl (at_identifier f p s r h))
  write_as-Shows false (cons a b) base (suc f) (suc g) v r small (p, x, y, low, e, h, sa, sb) hf
        hg =
      rw e (
        pair_round f p r
        ∙ write_pair-at (λ (w : Mobj). writing f w) f p x y _ _ r h
            (write_as-Shows false a base f f x r small.0 sa (omega arith) (omega arith))
            (write_as-Shows true b base f f y r small.1 sb (omega arith) (omega arith)))
  write_as-Shows true (cons a b) base (suc f) (suc g) v r small (p, x, y, low, e, h, sa, sb) hf hg =
      rw e (
        write_cdrs_pair (λ (w : Mobj). writing (suc f) w) g p x y _ _ r h
          (write_as-Shows false a base (suc f) g x r small.0 sa (omega arith) (omega arith))
          (write_as-Shows true b base (suc f) g y r small.1 sb (omega arith) (omega arith)))

  -- Mwrite puts out the text of the datum that stands for a value, and changes nothing.
  pub mwrite-render :
      (d : Datum) (base : Addr → Option Object) (fuel : ℕ) (v : Mobj) (r : Runtime)
      → SmallChars d
      → Shows base r d v
      → size d < fuel
      → mwrite dt fuel v r ≡ ok (render false d) r
  unfolding mwrite
  mwrite-render d base fuel v r small s h = write_as-Shows false d base fuel fuel v r small s h h
