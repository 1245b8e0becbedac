-- ===== src/Reader.antt =====
-- src/read.c, first part: `mreader`, with `reader_get` and `reader_peek`, the lexical predicates, and
-- the outcomes of a function that reads. An `int` that holds a character or EOF is an Option of a
-- byte. A file is what its calls of `fgetc` return, one after the other, so that input may still
-- come after an EOF; a string is bytes, a position and a length.
pub mod Tokens
pub mod Literals
pub mod Datum
pub mod Input
pub mod Lexing
pub mod Strings
pub mod Digits
pub mod Atoms
pub mod Chars
pub mod Dispatch
pub mod Heap
pub mod Leaf
pub mod Hash
pub mod Lists
pub mod Cells
pub mod Starts
pub mod Ends
pub mod RoundTrip
pub mod Unclosed
pub mod Comments
use minim.Base.{
  ℕ, suc, ◌+◌, ◌-◌, Bool, true, false, not, ◌&&◌, ◌||◌, Option, none, some, List, [], ◌∷◌, ltb, leb,
  ◌==◌, if◌then◌else◌, get_elem?, length,
}
use minim.ParseError.{ParseError}
use minim.Runtime.{Runtime, Run, Cmd, Error, parse_error}

pub data Source : Type 0 where
  string_source : (buf : List ℕ) (pos len : ℕ) → Source
  file_source : (fgetc : ℕ → Option ℕ) (calls : ℕ) → Source

-- `peeked` is `none` for -1: a peek that meets EOF leaves nothing behind.
pub record Reader : Type 0 where
  pub source : Source
  pub peeked : Option ℕ

-- What a function that reads comes to: a value, an error, undefined behaviour, or no end within the
-- fuel. An error leaves the reader where it stands.
pub data Outcome {ℓ} (A : Type ℓ) : Type ℓ where
  got : A → Reader → Runtime → Outcome A
  failed : Error → Reader → Runtime → Outcome A
  crashed unfinished : Outcome A

abbrev pub Reading {ℓ} : Type ℓ → Type ℓ
Reading A = Reader → Runtime → Outcome A

module _ {ℓ κ} {A : Type ℓ} {B : Type κ} where
  abbrev pub continue : Outcome A → (A → Reading B) → Outcome B
  continue (got a rd r) k = k a rd r
  continue (failed e rd r) k = failed e rd r
  continue crashed k = crashed
  continue unfinished k = unfinished

  infixl 5 ◌>>=◌
  abbrev pub ◌>>=◌ : Reading A → (A → Reading B) → Reading B
  m >>= k = λ rd r. continue (m rd r) k

infixl 5 ◌>>◌
abbrev pub ◌>>◌ {ℓ} : {B : Type ℓ} → Reading (Unit {0}) → Reading B → Reading B
m >> n = m >>= λ _. n

abbrev pub pure {ℓ} : {A : Type ℓ} → A → Reading A
pure a rd r = got a rd r

-- A call of a function of the runtime, which does not touch the reader.
abbrev pub after_run {ℓ} : {A : Type ℓ} → Reader → Run A → Outcome A
after_run rd (Run.ok a s) = got a rd s
after_run rd (Run.error e s) = failed e rd s
after_run rd Run.fault = crashed
after_run rd Run.out_of_fuel = unfinished

abbrev pub call {ℓ} : {A : Type ℓ} → Cmd A → Reading A
call m rd r = after_run rd (m r)

-- `parse_error` and `parse_error_c`.
abbrev pub parse_fails {ℓ} : {A : Type ℓ} → ParseError → Reading A
parse_fails e rd r = failed (parse_error e) rd r

abbrev pub fails_if : Bool → ParseError → Reading (Unit {0})
fails_if b e = if b then parse_fails e else pure tt

-- The bytes before the first NUL: what a C function takes a buffer for.
unfoldable pub c_string : List ℕ → List ℕ
c_string [] = []
c_string (c ∷ cs) = if c == 0 then [] else c ∷ c_string cs

unfoldable pub mreader_init_string : List ℕ → Reader
mreader_init_string s = record { source = string_source s 0 (length (c_string s)); peeked = none }

unfoldable pub mreader_init_file : (ℕ → Option ℕ) → ℕ → Reader
mreader_init_file fgetc calls = record { source = file_source fgetc calls; peeked = none }

abbrev pub byte_of : Option ℕ → List ℕ → (pos len : ℕ) → Reading (Option ℕ)
byte_of none buf pos len rd r = crashed
byte_of (some c) buf pos len rd r =
    got (some c) (record rd { source = string_source buf (suc pos) len }) r

-- The `switch` on the kind.
abbrev pub fetch : Source → Reading (Option ℕ)
fetch (string_source buf pos len) rd r =
    if not (ltb pos len) then got none rd r else byte_of (get_elem? buf pos) buf pos len rd r
fetch (file_source fgetc calls) rd r =
    got (fgetc calls) (record rd { source = file_source fgetc (suc calls) }) r

abbrev pub get_by : Option ℕ → Reading (Option ℕ)
get_by (some c) rd r = got (some c) (record rd { peeked = none }) r
get_by none rd r = fetch rd.source rd r

unfoldable pub reader_get : Reading (Option ℕ)
reader_get rd r = get_by rd.peeked rd r

abbrev pub keep_peeked : Option ℕ → Reading (Option ℕ)
keep_peeked c rd r = got c (record rd { peeked = c }) r

abbrev pub peek_by : Option ℕ → Reading (Option ℕ)
peek_by (some c) rd r = got (some c) rd r
peek_by none rd r = continue (fetch rd.source rd r) keep_peeked

unfoldable pub reader_peek : Reading (Option ℕ)
reader_peek rd r = peek_by rd.peeked rd r

-- A call of `reader_get` whose result is dropped.
unfoldable pub skip_char : Reading (Unit {0})
unfolding reader_get
skip_char = do _ ← reader_get; pure tt

-- <ctype.h> in the C locale.
unfoldable pub isspace : ℕ → Bool
isspace c = (c == b' ') || (leb 9 c && leb c 13)

unfoldable pub isdigit : ℕ → Bool
isdigit c = leb b'0' c && leb c b'9'

unfoldable pub isalpha : ℕ → Bool
isalpha c = (leb b'A' c && leb c b'Z') || (leb b'a' c && leb c b'z')

unfoldable pub is_delimiter : Option ℕ → Bool
unfolding isspace
is_delimiter none = true
is_delimiter (some c) =
    isspace c
    || c == b'('
    || c == b')'
    || c == b'['
    || c == b']'
    || c == b'{'
    || c == b'}'
    || c == b'"'
    || c == b';'

unfoldable pub is_symbol_char : Option ℕ → Bool
unfolding is_delimiter
is_symbol_char none = false
is_symbol_char (some c) = not (is_delimiter (some c))

unfoldable pub is_close_paren : Option ℕ → Bool
is_close_paren none = false
is_close_paren (some c) = c == b')' || c == b']' || c == b'}'

unfoldable pub matching_paren : ℕ → Option ℕ → Bool
matching_paren o none = false
matching_paren o (some c) =
    (o == b'(' && c == b')') || (o == b'[' && c == b']') || (o == b'{' && c == b'}')

-- -1 is `none`.
unfoldable pub hex_digit_val : Option ℕ → Option ℕ
hex_digit_val none = none
hex_digit_val (some c) =
    if leb b'0' c && leb c b'9'
    then some (c - b'0')
    else if leb b'a' c && leb c b'f'
    then some (10 + (c - b'a'))
    else if leb b'A' c && leb c b'F'
    then some (10 + (c - b'A'))
    else none
