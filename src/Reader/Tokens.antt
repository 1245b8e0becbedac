-- ===== src/Reader/Tokens.antt =====
-- src/read.c: white space and comments, numbers and symbols. A loop reads on fuel, since a file may
-- not end.
use minim.Base.{
  ℕ, zero, suc, ◌+◌, ◌-◌, ◌*◌, ◌%◌, ◌^◌, Bool, true, false, not, ◌&&◌, ◌||◌, Option, none, some,
  List, [], ◌∷◌, ◌++◌, leb, ◌==◌, if◌then◌else◌, length,
}
use minim.Object.{Mobj, mfixnum}
use minim.ParseError.{
  ParseError, unterminated_comment, token_too_long, expected_hex_digit, delimiter_after_hex,
}
use minim.Symbol.{mintern}
use minim.Prims.{negated}
use minim.Reader.{
  Reading, unfinished, c_string, pure, ◌>>=◌, ◌>>◌, call, parse_fails, fails_if, reader_get,
  reader_peek, skip_char, isspace, isdigit, is_delimiter, is_symbol_char, hex_digit_val,
}

abbrev pub is_char : ℕ → Option ℕ → Bool
is_char k none = false
is_char k (some n) = n == k

-- What follows a character of a block comment: `|` and `#` change the depth with the next one.
unfoldable pub comment_step : (ℕ → Reading (Unit {0})) → ℕ → Option ℕ → Reading (Unit {0})
comment_step again depth none = parse_fails unterminated_comment
comment_step again depth (some c) =
    if c == b'#'
    then (do
      n ← reader_peek
      if is_char b'|' n then (do skip_char; again (depth + 1)) else again depth)
    else if c == b'|'
    then (do
      n ← reader_peek
      if is_char b'#' n then (do skip_char; again (depth - 1)) else again depth)
    else again depth

unfoldable pub comment_loop : ℕ → ℕ → Reading (Unit {0})
comment_loop zero depth = λ _ _. unfinished
comment_loop (suc fuel) depth =
    let again = λ (d : ℕ). comment_loop fuel d in
    if not (depth == 0) then reader_get >>= comment_step again depth else pure tt

unfoldable pub skip_block_comment : ℕ → Reading (Unit {0})
skip_block_comment fuel = comment_loop fuel 1

-- The inner loop, to the end of a `;` comment.
unfoldable pub line_step : Reading (Unit {0}) → Option ℕ → Reading (Unit {0})
line_step again none = pure tt
line_step again (some n) = if n == b'\n' then pure tt else again

unfoldable pub skip_line : ℕ → Reading (Unit {0})
skip_line zero = λ _ _. unfinished
skip_line (suc fuel) = let again = skip_line fuel in reader_get >>= line_step again

unfoldable pub space_step : (line again : Reading (Unit {0})) → Option ℕ → Reading (Unit {0})
space_step line again none = pure tt
space_step line again (some c) =
    if isspace c
    then (do skip_char; again)
    else if c == b';'
    then (do skip_char; line; again)
    else pure tt

unfoldable pub skip_whitespace : ℕ → Reading (Unit {0})
skip_whitespace zero = λ _ _. unfinished
skip_whitespace (suc fuel) =
    let again = skip_whitespace fuel in reader_peek >>= space_step (skip_line fuel) again

unfoldable pub all_digits : List ℕ → Bool
all_digits [] = true
all_digits (c ∷ cs) = isdigit c && all_digits cs

-- Digits, and one at least.
unfoldable pub some_digits : List ℕ → Bool
some_digits [] = false
some_digits (c ∷ cs) = all_digits (c ∷ cs)

unfoldable pub all_decimal_digits : List ℕ → Bool
all_decimal_digits [] = false
all_decimal_digits (c ∷ cs) =
    if c == b'+' || c == b'-' then some_digits cs else some_digits (c ∷ cs)

-- The loop that fills a buffer of `cap` bytes up to a character that ends the token, with the last
-- byte kept for the NUL.
unfoldable pub token_step :
    (List ℕ → Reading (List ℕ)) → ParseError → ℕ → List ℕ → Option ℕ → Reading (List ℕ)
token_step again e cap buf none = pure buf
token_step again e cap buf (some c) =
    if is_symbol_char (some c)
    then (do fails_if (leb cap (length buf + 1)) e; skip_char; again (buf ++ c ∷ []))
    else pure buf

unfoldable pub token_loop : ParseError → ℕ → ℕ → List ℕ → Reading (List ℕ)
token_loop e cap zero buf = λ _ _. unfinished
token_loop e cap (suc fuel) buf =
    let again = λ (b : List ℕ). token_loop e cap fuel b in
    reader_peek >>= token_step again e cap buf

abbrev pub read_buf_max : ℕ
read_buf_max = 256

unfoldable pub read_token_body : ℕ → ℕ → ℕ → Reading (List ℕ)
read_token_body cap fuel first = do
  fails_if (leb cap 1) token_too_long
  token_loop token_too_long cap fuel (first ∷ [])

-- `n = n * 10 + (*p - '0')`, in 64 bits.
unfoldable pub decimal_loop : ℕ → List ℕ → ℕ
decimal_loop n [] = n
decimal_loop n (c ∷ cs) = decimal_loop ((n * 10 + (c - b'0')) % 2 ^ 64) cs

-- `sign * n`.
unfoldable pub decimal_val : List ℕ → ℕ
decimal_val [] = 0
decimal_val (c ∷ cs) =
    if c == b'+'
    then decimal_loop 0 cs
    else if c == b'-'
    then negated (decimal_loop 0 cs)
    else decimal_loop 0 (c ∷ cs)

unfoldable pub atom_of : List ℕ → Reading Mobj
atom_of buf =
    if all_decimal_digits buf then pure (mfixnum (decimal_val buf)) else call (mintern buf)

unfoldable pub read_atom : ℕ → ℕ → Reading Mobj
read_atom fuel first = do buf ← read_token_body read_buf_max fuel first; atom_of (c_string buf)

-- One round: the digit's value goes into `n`, and the next character is read if it is a digit.
unfoldable pub hex_step : (Option ℕ → ℕ → Reading ℕ) → ℕ → Option ℕ → Reading ℕ
hex_step again n none = pure n
hex_step again n (some v) = do
  let m = (n * 16 + v) % 2 ^ 64
  c ← reader_peek
  elim (hex_digit_val c) [ none ↦ pure m | some _ ↦ do skip_char; again c m ]

unfoldable pub hex_loop : ℕ → Option ℕ → ℕ → Reading ℕ
hex_loop zero c n = λ _ _. unfinished
hex_loop (suc fuel) c n =
    let again = λ (d : Option ℕ) (m : ℕ). hex_loop fuel d m in hex_step again n (hex_digit_val c)

unfoldable pub hex_number : ℕ → Bool → Option ℕ → Reading Mobj
hex_number fuel minus c = do
  elim (hex_digit_val c) [ none ↦ parse_fails (expected_hex_digit c) | some _ ↦ pure tt ]
  n ← hex_loop fuel c 0
  d ← reader_peek
  fails_if (not (is_delimiter d)) (delimiter_after_hex d)
  pure (mfixnum (if minus then negated n else n))

unfoldable pub read_hex_fixnum : ℕ → Reading Mobj
read_hex_fixnum fuel = do
  c ← reader_get
  if is_char b'+' c
      then (do d ← reader_get; hex_number fuel false d)
      else if is_char b'-' c
      then (do d ← reader_get; hex_number fuel true d)
      else hex_number fuel false c
