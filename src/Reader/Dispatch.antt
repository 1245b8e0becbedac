-- ===== src/Reader/Dispatch.antt =====
-- src/read.c, `read_datum`, on what src/write.c puts out for a datum that is no pair.
use minim.Base.{
  ℕ, suc, ◌<◌, ◌≡◌, ◌≢◌, inl, inr, refl, ◌∙◌, true, false, ◌||◌, Option, some, none, List, [], ◌∷◌,
  length, arith, Bool-cases, ◌==◌, ==_ne, if◌then◌else◌,
}
use minim.Object.{Mobj, meof}
use minim.Runtime.{Runtime}
use minim.Runtime.Laws.{Keeps, Keeps-refl}
use minim.Symbol.Laws.{IsTable}
use minim.Writer.Data.{Datum, Shows}
use minim.Reader.{Reader, Reading, got, pure, reader_peek, is_symbol_char, is_close_paren, isspace}
use minim.Reader.Tokens.{read_atom}
use minim.Reader.Datum.{read_datum, datum_step, sign_step, atom_step, digit_next}
use minim.Reader.Input.{Input, Leaves, head?, reader_get-Leaves, reader_peek-Leaves}
use minim.Reader.Lexing.{
  AllSymbol, is_dense, skip_whitespace_dense, skip_whitespace_fuel, skip_whitespace_newline,
}
use minim.Reader.Atoms.{NoNul}

-- The command returns what stands for the datum, with new pairs only, keeps all that was there, and
-- leaves the rest of the input.
pub record ReadsAs (m : Reading Mobj) (rd : Reader) (r : Runtime) (d : Datum) (rest : List ℕ)
    : Type 0 where
  pub value : Mobj
  pub reader : Reader
  pub after : Runtime
  pub returns : m rd r ≡ got value reader after
  pub input : Input reader rest
  pub table : IsTable after
  pub kept : Keeps r after
  pub shows : Shows r.heap after d value

-- Another command that comes to the same.
pub ReadsAs-by :
    {m m' : Reading Mobj} {rd rd' : Reader} {r : Runtime} {d : Datum} {rest : List ℕ}
    → m rd r ≡ m' rd' r
    → ReadsAs m' rd' r d rest
    → ReadsAs m rd r d rest
ReadsAs-by e k = record {
  value = k.value;
  reader = k.reader;
  after = k.after;
  returns = e ∙ k.returns;
  input = k.input;
  table = k.table;
  kept = k.kept;
  shows = k.shows;
}

-- A command that leaves the runtime as it is.
pub Leaves-ReadsAs :
    (m : Reading Mobj) (rd : Reader) (r : Runtime) (d : Datum) (rest : List ℕ) (v : Mobj)
    → IsTable r
    → Shows r.heap r d v
    → Leaves m rd r v rest r
    → ReadsAs m rd r d rest
Leaves-ReadsAs m rd r d rest v table shows (rd', e, i) = record {
  value = v;
  reader = rd';
  after = r;
  returns = e;
  input = i;
  table = table;
  kept = Keeps-refl r;
  shows = shows;
}

-- The dispatch, at a character that is no white space.
pub read_datum_round :
    (fuel c : ℕ) (cs : List ℕ) (rd : Reader) (r : Runtime)
    → is_dense (some c) ≡ true
    → Input rd (c ∷ cs)
    → (rd' : Reader) × (read_datum (suc (suc fuel)) rd r
        ≡ datum_step (read_datum (suc fuel)) (suc fuel) (some c) rd' r)
      × Input rd' cs
unfolding read_datum
read_datum_round fuel c cs rd r dense i =
    let (rd1, e1, i1) = skip_whitespace_dense fuel rd r (c ∷ cs) dense i in
    let (rd2, e2, i2) = reader_get-Leaves rd1 r (c ∷ cs) i1 in (rd2, rw e1 (rw e2 refl), i2)

-- A token that is no number is a symbol, and one that starts a datum.
pub record Token (s : List ℕ) : Type 0 where
  pub first : ℕ
  pub more : List ℕ
  pub split : s ≡ first ∷ more
  pub symbol_chars : AllSymbol (first ∷ more)
  pub no_nul : NoNul (first ∷ more)
  pub short : length more < 255
  pub no_hash : first ≢ b'#'
  pub no_quote : first ≢ b'\''
  pub no_dot : first ≢ b'.'

pub symbol_char-other :
    (c : ℕ)
    → is_symbol_char (some c) ≡ true
    → ((c == b'(' || c == b'[' || c == b'{') ≡ false)
      × ((c == b'"') ≡ false)
      × (is_close_paren (some c) ≡ false)
      × (is_dense (some c) ≡ true)
unfolding is_symbol_char is_close_paren isspace
symbol_char-other c h = ground arith

datum_step-symbol :
    (read : Reading Mobj) (fuel c : ℕ)
    → is_symbol_char (some c) ≡ true
    → c ≢ b'#'
    → c ≢ b'\''
    → datum_step read fuel (some c)
      ≡ (if c == b'+' || c == b'-' then sign_step fuel c else atom_step fuel c)
unfolding datum_step
datum_step-symbol read fuel c h no_hash no_quote =
    let (no_open, no_string, no_close, dense) = symbol_char-other c h in
    rw (no_open, no_string, no_close, ==_ne c b'#' no_hash, ==_ne c b'\'' no_quote) refl

atom_step-symbol :
    (fuel c : ℕ) → is_symbol_char (some c) ≡ true → atom_step fuel c ≡ read_atom fuel c
unfolding atom_step
atom_step-symbol fuel c h = rw h refl

sign_step-symbol :
    (fuel c : ℕ) (o : Option ℕ) (rd rd' : Reader) (r : Runtime)
    → is_symbol_char (some c) ≡ true
    → reader_peek rd r ≡ got o rd' r
    → sign_step fuel c rd r ≡ read_atom fuel c rd' r
unfolding sign_step
sign_step-symbol fuel c o rd rd' r h e = elim (Bool-cases (digit_next o)) [
  | inl digit ↦ rw e (rw digit refl)
  | inr other ↦ rw e (rw (other, atom_step-symbol fuel c h) refl)
]

-- Whatever the sign before it, the token goes to read_atom.
pub datum_step-atom :
    (read : Reading Mobj) (fuel c : ℕ) (cs : List ℕ) (rd : Reader) (r : Runtime)
    → is_symbol_char (some c) ≡ true
    → c ≢ b'#'
    → c ≢ b'\''
    → Input rd cs
    → (rd' : Reader) × (datum_step read fuel (some c) rd r ≡ read_atom fuel c rd' r) × Input rd' cs
datum_step-atom read fuel c cs rd r h no_hash no_quote i =
    rw (datum_step-symbol read fuel c h no_hash no_quote)
      (elim (Bool-cases (c == b'+' || c == b'-')) [
        | inl sign ↦
            let (rd1, e1, i1) = reader_peek-Leaves rd r cs i in
            (rd1, rw sign (sign_step-symbol fuel c (head? cs) rd rd1 r h e1), i1)
        | inr other ↦ (rd, rw (other, atom_step-symbol fuel c h) refl, i)
      ])

-- A newline in front of a datum or of EOF changes nothing.
pub read_datum_newline :
    (fuel : ℕ) (cs : List ℕ) (rd : Reader) (r : Runtime)
    → is_dense (head? cs) ≡ true
    → Input rd (b'\n' ∷ cs)
    → (rd' : Reader) × (read_datum (suc (suc (suc fuel))) rd r
        ≡ read_datum (suc (suc (suc fuel))) rd' r)
      × Input rd' cs
unfolding read_datum
read_datum_newline fuel cs rd r dense i =
    let (rd1, e1, i1) = skip_whitespace_newline fuel rd r cs i in
    let e2 = skip_whitespace_fuel fuel (suc fuel) rd1 r cs dense i1 in (rd1, rw (e1 ∙ e2) refl, i1)

datum_step-eof : (read : Reading Mobj) (fuel : ℕ) → datum_step read fuel none ≡ pure meof
unfolding datum_step
datum_step-eof read fuel = refl

-- At the end of the input there is the EOF object.
pub read_datum_eof :
    (fuel : ℕ) (rd : Reader) (r : Runtime)
    → Input rd []
    → Leaves (read_datum (suc (suc fuel))) rd r meof [] r
unfolding read_datum
read_datum_eof fuel rd r i =
    let (rd1, e1, i1) = skip_whitespace_dense fuel rd r [] refl i in
    let (rd2, e2, i2) = reader_get-Leaves rd1 r [] i1 in
    (rd2, rw e1 (rw e2 (rw (datum_step-eof (read_datum (suc fuel)) (suc fuel)) refl)), i2)
