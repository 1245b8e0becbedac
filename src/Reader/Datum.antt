-- ===== src/Reader/Datum.antt =====
-- src/read.c: lists, vectors, `#` syntax and the dispatch, up to Mread. `read` stands for the
-- recursive call of read_datum, which has one unit of fuel less.
use minim.Base.{
  ℕ, zero, suc, Bool, false, not, ◌||◌, Option, none, some, [], ◌∷◌, ◌==◌, if◌then◌else◌,
}
use minim.Object.{Mobj, fixnum, mfalse, mtrue, mnull, meof, mnullp}
use minim.ParseError.{
  symbol_too_long, unterminated_list, no_car, unterminated_vector, nothing_to_discard,
  eof_after_hash, paren_mismatch, expected_close, delimiter_after_true, delimiter_after_false,
  unknown_hash, unexpected_close, unexpected_character,
}
use minim.Runtime.{Cmd, mcar, mcdr, mset_cdr, mtyped_obj_set}
use minim.Runtime
use minim.Alloc.{mcons, mvector}
use minim.Symbol.{mintern}
use minim.Reader.{
  c_string, Reading, unfinished, pure, ◌>>=◌, ◌>>◌, call, parse_fails, fails_if, reader_get,
  reader_peek, skip_char, isdigit, is_delimiter, is_symbol_char, is_close_paren, matching_paren,
}
use minim.Reader.Tokens.{
  skip_whitespace, skip_block_comment, token_loop, read_atom, read_hex_fixnum, read_buf_max,
}
use minim.Reader.Literals.{read_string, read_char}

-- One more cell at the end of the list so far.
unfoldable pub append_cell : Mobj → Mobj → Mobj → Reading (Mobj × Mobj)
append_cell head tail x = do
  cell ← call (mcons x mnull)
  if mnullp head then pure (cell, cell) else (do call (mset_cdr tail cell); pure (head, cell))

-- At a closing parenthesis.
unfoldable pub close_list : ℕ → Mobj → Option ℕ → Reading Mobj
close_list open_paren head c = do
  skip_char
  fails_if (not (matching_paren open_paren c)) (paren_mismatch c)
  pure head

-- The datum behind a dot, and the parenthesis after it.
unfoldable pub dotted_cdr : Reading Mobj → ℕ → ℕ → Mobj → Mobj → Reading Mobj
dotted_cdr read fuel open_paren head tail = do
  fails_if (mnullp head) no_car
  skip_whitespace fuel
  x ← read
  call (mset_cdr tail x)
  skip_whitespace fuel
  e ← reader_get
  fails_if (not (is_close_paren e)) (expected_close e)
  fails_if (not (matching_paren open_paren e)) (paren_mismatch e)
  pure head

-- The rest of the loop, with the cell of `x` at the end.
unfoldable pub list_next : (Mobj → Mobj → Reading Mobj) → Mobj → Mobj → Mobj → Reading Mobj
list_next again head tail x = do ends ← append_cell head tail x; again ends.0 ends.1

-- At a dot: a dotted pair, or a symbol that starts with it.
unfoldable pub list_dot :
    Reading Mobj → ℕ → ℕ → (Mobj → Mobj → Reading Mobj) → Mobj → Mobj → Reading Mobj
list_dot read fuel open_paren again head tail = do
  skip_char
  n ← reader_peek
  if is_delimiter n
      then dotted_cdr read fuel open_paren head tail
      else (do x ← read_atom fuel b'.'; list_next again head tail x)

unfoldable pub list_step :
    Reading Mobj → ℕ → ℕ → (Mobj → Mobj → Reading Mobj) → Mobj → Mobj → Option ℕ → Reading Mobj
list_step read fuel open_paren again head tail none = parse_fails unterminated_list
list_step read fuel open_paren again head tail (some c) =
    if is_close_paren (some c)
    then close_list open_paren head (some c)
    else if c == b'.'
    then list_dot read fuel open_paren again head tail
    else (do x ← read; list_next again head tail x)

unfoldable pub list_loop : Reading Mobj → ℕ → ℕ → Mobj → Mobj → Reading Mobj
list_loop read open_paren zero head tail = λ _ _. unfinished
list_loop read open_paren (suc fuel) head tail =
    let again = λ (h t : Mobj). list_loop read open_paren fuel h t in
    do skip_whitespace fuel; c ← reader_peek; list_step read fuel open_paren again head tail c

unfoldable pub read_list : Reading Mobj → ℕ → ℕ → Reading Mobj
read_list read fuel open_paren = list_loop read open_paren fuel mnull mnull

-- The elements of a vector as a list, with their number.
unfoldable pub elements_step :
    Reading Mobj
    → (Mobj → Mobj → ℕ → Reading (Mobj × ℕ))
    → Mobj
    → Mobj
    → ℕ
    → Option ℕ
    → Reading (Mobj × ℕ)
elements_step read again head tail n none = parse_fails unterminated_vector
elements_step read again head tail n (some c) =
    if c == b')'
    then (do skip_char; pure (head, n))
    else (do x ← read; ends ← append_cell head tail x; again ends.0 ends.1 (suc n))

unfoldable pub elements_loop : Reading Mobj → ℕ → Mobj → Mobj → ℕ → Reading (Mobj × ℕ)
elements_loop read zero head tail n = λ _ _. unfinished
elements_loop read (suc fuel) head tail n =
    let again = λ (h t : Mobj) (k : ℕ). elements_loop read fuel h t k in
    do skip_whitespace fuel; c ← reader_peek; elements_step read again head tail n c

-- The loop that copies the list into the vector: `left` slots from the index `i` on.
unfoldable pub fill_vector : ℕ → ℕ → Mobj → Mobj → Reading (Unit {0})
fill_vector zero i v cur = pure tt
fill_vector (suc left) i v cur =
    let rest = λ (d : Mobj). fill_vector left (suc i) v d in
    do a ← call (mcar cur); call (mtyped_obj_set v i a); d ← call (mcdr cur); rest d

unfoldable pub read_vector : Reading Mobj → ℕ → Reading Mobj
read_vector read fuel = do
  elements ← elements_loop read fuel mnull mnull 0
  v ← call (mvector elements.1 (fixnum 0))
  fill_vector elements.1 0 v elements.0
  pure v

-- `#;`: one datum is dropped.
unfoldable pub datum_comment : Reading Mobj → ℕ → Reading Mobj
datum_comment read fuel = do
  skip_whitespace fuel
  c ← reader_peek
  elim c [ none ↦ parse_fails nothing_to_discard | some _ ↦ pure tt ]
  _ ← read
  read

-- `#%name`, a symbol with the prefix in its name.
unfoldable pub read_system_symbol : ℕ → Reading Mobj
read_system_symbol fuel = do
  buf ← token_loop symbol_too_long read_buf_max fuel (b'#' ∷ b'%' ∷ [])
  call (mintern (c_string buf))

unfoldable pub read_true : Reading Mobj
read_true = do d ← reader_peek; fails_if (not (is_delimiter d)) (delimiter_after_true d); pure mtrue

unfoldable pub read_false : Reading Mobj
read_false = do
  d ← reader_peek
  fails_if (not (is_delimiter d)) (delimiter_after_false d)
  pure mfalse

-- The `switch` on the character behind `#`.
unfoldable pub hash_step : Reading Mobj → ℕ → Option ℕ → Reading Mobj
hash_step read fuel none = parse_fails eof_after_hash
hash_step read fuel (some c) =
    if c == b't'
    then read_true
    else if c == b'f'
    then read_false
    else if c == b'\\'
    then read_char fuel
    else if c == b'('
    then read_vector read fuel
    else if c == b'x'
    then read_hex_fixnum fuel
    else if c == b';'
    then datum_comment read fuel
    else if c == b'|'
    then (do skip_block_comment fuel; read)
    else if c == b'%'
    then read_system_symbol fuel
    else parse_fails (unknown_hash (some c))

unfoldable pub read_hash : Reading Mobj → ℕ → Reading Mobj
read_hash read fuel = reader_get >>= hash_step read fuel

abbrev quote_symbol : Cmd Mobj
quote_symbol r = Runtime.ok r.quote_sym r

unfoldable pub read_quoted : Reading Mobj → Reading Mobj
read_quoted read = do
  inner ← read
  tail ← call (mcons inner mnull)
  q ← call quote_symbol
  call (mcons q tail)

-- Behind a sign: a number if a digit follows.
unfoldable pub atom_step : ℕ → ℕ → Reading Mobj
atom_step fuel c =
    if is_symbol_char (some c)
    then read_atom fuel c
    else parse_fails (unexpected_character (some c))

abbrev pub digit_next : Option ℕ → Bool
digit_next none = false
digit_next (some n) = isdigit n

unfoldable pub sign_step : ℕ → ℕ → Reading Mobj
sign_step fuel c = do n ← reader_peek; if digit_next n then read_atom fuel c else atom_step fuel c

-- The dispatch on the first character.
unfoldable pub datum_step : Reading Mobj → ℕ → Option ℕ → Reading Mobj
datum_step read fuel none = pure meof
datum_step read fuel (some c) =
    if c == b'(' || c == b'[' || c == b'{'
    then read_list read fuel c
    else if c == b'#'
    then read_hash read fuel
    else if c == b'"'
    then read_string fuel
    else if c == b'\''
    then read_quoted read
    else if is_close_paren (some c)
    then parse_fails (unexpected_close (some c))
    else if c == b'+' || c == b'-'
    then sign_step fuel c
    else atom_step fuel c

unfoldable pub read_datum : ℕ → Reading Mobj
read_datum zero = λ _ _. unfinished
read_datum (suc fuel) =
    let read = read_datum fuel in do skip_whitespace fuel; c ← reader_get; datum_step read fuel c

unfoldable pub mread : ℕ → Reading Mobj
mread fuel = read_datum fuel
