-- ===== src/Reader/Literals.antt =====
-- src/read.c: string and character literals.
use minim.Base.{
  ℕ, zero, suc, ◌+◌, ◌*◌, Bool, true, false, not, ◌&&◌, Option, none, some, List, [], ◌∷◌, ◌++◌,
  ltb, leb, ◌==◌, if◌then◌else◌, length, codes,
}
use minim.Object.{Mobj, char}
use minim.ParseError.{
  unterminated_string, unterminated_escape, string_too_long, eof_after_prefix, char_name_too_long,
  exceeds_unicode, unknown_escape, non_ascii, delimiter_after_char, unknown_char_name,
}
use minim.Alloc.{mstring_from_bytes}
use minim.Symbol.{bytes_eq}
use minim.Reader.{
  c_string, Reading, unfinished, pure, ◌>>=◌, ◌>>◌, call, parse_fails, fails_if, reader_get,
  reader_peek, isalpha, is_delimiter, hex_digit_val,
}
use minim.Reader.Tokens.{token_loop, read_buf_max}

-- The character behind a backslash.
unfoldable pub unescape : Option ℕ → Reading ℕ
unescape none = parse_fails unterminated_escape
unescape (some e) =
    if e == b'\\'
    then pure b'\\'
    else if e == b'"'
    then pure b'"'
    else if e == b'n'
    then pure b'\n'
    else if e == b't'
    then pure b'\t'
    else if e == b'r'
    then pure b'\r'
    else parse_fails (unknown_escape (some e))

-- The checks on a byte, and the buffer with it.
unfoldable pub put_byte : (List ℕ → Reading Mobj) → List ℕ → ℕ → Reading Mobj
put_byte again buf c = do
  fails_if (leb 0x80 c) (non_ascii (some c))
  fails_if (leb read_buf_max (length buf + 1)) string_too_long
  again (buf ++ c ∷ [])

unfoldable pub string_step : (List ℕ → Reading Mobj) → List ℕ → Option ℕ → Reading Mobj
string_step again buf none = parse_fails unterminated_string
string_step again buf (some c) =
    if c == b'"'
    then call (mstring_from_bytes buf)
    else if c == b'\\'
    then (do e ← reader_get; d ← unescape e; put_byte again buf d)
    else put_byte again buf c

unfoldable pub string_loop : ℕ → List ℕ → Reading Mobj
string_loop zero buf = λ _ _. unfinished
string_loop (suc fuel) buf =
    let again = λ (b : List ℕ). string_loop fuel b in reader_get >>= string_step again buf

unfoldable pub read_string : ℕ → Reading Mobj
read_string fuel = string_loop fuel []

pub record NamedChar : Type 0 where
  pub name : List ℕ
  pub code : ℕ

abbrev pub char_table : List NamedChar
char_table =
    record { name = codes "alarm"; code = 0x07 }
    ∷ record { name = codes "backspace"; code = 0x08 }
    ∷ record { name = codes "delete"; code = 0x7F }
    ∷ record { name = codes "escape"; code = 0x1B }
    ∷ record { name = codes "newline"; code = 0x0A }
    ∷ record { name = codes "null"; code = 0x00 }
    ∷ record { name = codes "return"; code = 0x0D }
    ∷ record { name = codes "space"; code = 0x20 }
    ∷ record { name = codes "tab"; code = 0x09 }
    ∷ []

unfoldable pub lookup_name : List NamedChar → List ℕ → Option ℕ
lookup_name [] s = none
lookup_name (e ∷ es) s =
    let rest = lookup_name es s in if bytes_eq s e.name then some e.code else rest

unfoldable pub char_name_lookup : List ℕ → Option ℕ
char_name_lookup s = lookup_name char_table s

unfoldable pub all_hex : List ℕ → Bool
all_hex [] = true
all_hex (c ∷ cs) = elim (hex_digit_val (some c)) [ none ↦ false | some _ ↦ all_hex cs ]

abbrev pub or_zero : Option ℕ → ℕ
or_zero none = 0
or_zero (some v) = v

-- The digits are hexadecimal here, so that `code << 4 | digit` is a sum. The value is checked at each
-- digit, and stays small.
unfoldable pub hex_code : ℕ → List ℕ → Reading ℕ
hex_code n [] = pure n
hex_code n (c ∷ cs) =
    let rest = λ (k : ℕ). hex_code k cs in
    let m = n * 16 + or_zero (hex_digit_val (some c)) in
    if ltb 0x10FFFF m then parse_fails exceeds_unicode else rest m

unfoldable pub read_named : List ℕ → Reading Mobj
read_named buf = elim (char_name_lookup buf) [
  | none ↦ parse_fails (unknown_char_name buf)
  | some c ↦ pure (char c)
]

-- What the bytes behind `#\` stand for.
unfoldable pub char_of : List ℕ → Reading Mobj
char_of [] = read_named []
char_of (first ∷ []) = pure (char first)
char_of (first ∷ (c ∷ cs)) =
    if first == b'x' && all_hex (c ∷ cs)
    then (do code ← hex_code 0 (c ∷ cs); pure (char code))
    else read_named (c_string (first ∷ (c ∷ cs)))

-- The rest of a name, behind a letter.
unfoldable pub char_body : ℕ → ℕ → Reading (List ℕ)
char_body fuel first =
    if isalpha first then token_loop char_name_too_long 64 fuel (first ∷ []) else pure (first ∷ [])

unfoldable pub char_step : ℕ → Option ℕ → Reading Mobj
char_step fuel none = parse_fails eof_after_prefix
char_step fuel (some first) = do
  buf ← char_body fuel first
  d ← reader_peek
  fails_if (not (is_delimiter d)) (delimiter_after_char d)
  char_of buf

unfoldable pub read_char : ℕ → Reading Mobj
read_char fuel = reader_get >>= char_step fuel
