-- ===== src/Tests/Text.antt =====
-- Runs of the reader and the writer, and their theorems at concrete inputs.
use minim.Base.{
  ℕ, zero, suc, ◌^◌, ◌-◌, ◌≡◌, ◌<◌, refl, Option, none, some, get_elem?, List, [], ◌∷◌, ◌++◌, codes,
  replicate, get_or, false, true, not, ◌==◌, ◌&&◌, ◌+◌, length, arith, Bool,
}
use minim.Object.{Mobj, fixnum, pair, typed, cons_cell, str, sign_extend}
use minim.Runtime.{Cmd, PrimFn, Runtime, ok, fault, write}
use minim.Symbol.Laws.{IsTable}
use minim.Writer.{
  DoubleText, canonical_char, mwrite, write_signed, to_base, digit_char, escape_bytes, escape_byte,
}
use minim.Writer.Data.{Datum, number, character, text, cons, render, Shows, mwrite-render}
use minim.Reader.{is_delimiter, Reader, Outcome, got, mreader_init_string, mreader_init_file}
use minim.Reader.Input.{Input}
use minim.Reader.Atoms.{NoNul, init_string-Input}
use minim.Reader.Datum.{mread}
use minim.Reader.Dispatch.{ReadsAs}
use minim.Reader.RoundTrip.{mread-mwrite}
use minim.Reader.Comments.{Comment, byte, nested, comment_text, next, IsPlain, mread-comment}
use minim.Reader.Unclosed.{FailsWith, complaint, mread-unclosed}
use minim.ParseError.{non_ascii}
use minim.Repl.{main, closed}
use minim.Shutdown.{IsShut}
use minim.Repl.Echo.{script, lines, main-lines}
use minim.Tests.{blank, result}

abbrev pub no_doubles : DoubleText
no_doubles = record {
  isnan = λ _. false;
  isinf = λ _. false;
  negative = λ _. false;
  format = λ _. [];
}

-- The pair (-7 . "a\n") and its string, under a table with no symbols.
abbrev pub stored : Runtime
stored =
    let s = write blank 16 (str (97 ∷ 10 ∷ [])) in
    record (write s 0 (cons_cell (fixnum (2 ^ 61 - 7)) (typed 16))) {
      ap = 32;
      intern_table = replicate 8 [];
    }

abbrev written : Outcome Mobj → Option (List ℕ)
written (got v rd r) = result (mwrite no_doubles 30 v r)
written _ = none

abbrev echo : List ℕ → Option (List ℕ)
echo s = written (mread 60 (mreader_init_string s) stored)

get_or-replicate : (n i : ℕ) → get_or {A = List Mobj} (replicate n []) i [] ≡ []
get_or-replicate zero i = refl
get_or-replicate (suc n) zero = refl
get_or-replicate (suc n) (suc i) = get_or-replicate n i

abbrev shown : Datum
shown = cons (number (2 ^ 61 - 7)) (text (97 ∷ 10 ∷ []))

stored-IsTable : IsTable stored
stored-IsTable = record {
  fresh = record { unused = λ p h. ground arith };
  size = omega arith;
  buckets = λ i. rw (get_or-replicate 8 i) tt;
}

stored-Shows : Shows (λ _. none) stored shown (pair 0)
stored-Shows = (0, fixnum (2 ^ 61 - 7), typed 16, refl, refl, refl, refl, (16, refl, refl))

shown_written : mwrite no_doubles 4 (pair 0) stored ≡ ok (render false shown) stored
shown_written =
    mwrite-render no_doubles shown (λ _. none) 4 (pair 0) stored (tt, tt) stored-Shows (omega arith)

mwrite-render_example : mwrite no_doubles 4 (pair 0) stored ≡ ok (render false shown) stored
mwrite-render_example =
    mwrite-render no_doubles shown (λ _. none) 4 (pair 0) stored (tt, tt) stored-Shows (omega arith)

abbrev no_nul : List ℕ → Bool
no_nul [] = true
no_nul (c ∷ cs) = not (c == 0) && no_nul cs

no_nul-NoNul : (cs : List ℕ) → no_nul cs ≡ true → NoNul cs
no_nul-NoNul [] h = tt
no_nul-NoNul (c ∷ cs) h = (ground arith, no_nul-NoNul cs (ground arith))

-- The text, and a reader before it.
abbrev pub shown_text : List ℕ
shown_text = codes "(-7 . \"a\\n\")"

render-shown : render false shown ++ [] ≡ shown_text
unfolding render sign_extend write_signed to_base digit_char escape_bytes escape_byte
render-shown = refl

shown-Input : Input (mreader_init_string shown_text) (render false shown ++ [])
shown-Input = rw render-shown (init_string-Input shown_text (no_nul-NoNul shown_text refl))

shown_short : length (render false shown) + 2 < 20
unfolding render sign_extend write_signed to_base escape_bytes escape_byte
shown_short = omega arith

mread-mwrite_example : ReadsAs (mread 20) (mreader_init_string shown_text) stored shown []
mread-mwrite_example =
    mread-mwrite no_doubles shown 4 20 (pair 0) (render false shown) []
      (mreader_init_string shown_text) stored stored stored-IsTable
      (omega arith, ((omega arith, (omega arith, tt)), omega arith)) stored-Shows (omega arith)
      shown_written (unfold is_delimiter in refl) shown_short shown-Input

abbrev unclosed : List ℕ
unclosed = b'a' ∷ 10 ∷ 233 ∷ b'b' ∷ []

unclosed-NoNul : NoNul (b'"' ∷ escape_bytes unclosed)
unfolding escape_bytes escape_byte
unclosed-NoNul = ground arith

unclosed_short : length (escape_bytes unclosed) + 2 < 8
unfolding escape_bytes escape_byte
unclosed_short = omega arith

mread-unclosed_example :
    FailsWith
      (non_ascii (some 233))
      (mread 8)
      (mreader_init_string (b'"' ∷ escape_bytes unclosed))
      stored
unfolding complaint
mread-unclosed_example =
    mread-unclosed unclosed 8 (mreader_init_string (b'"' ∷ escape_bytes unclosed)) stored
      unclosed_short (init_string-Input (b'"' ∷ escape_bytes unclosed) unclosed-NoNul)

-- `#|#x#|y||#|z|##t`: a comment within a comment, with bytes `#` and `|` that change no depth, and a
-- boolean behind them.
abbrev remark : Comment
remark =
    byte b'#' (
      byte b'x'
        (nested (byte b'y' (byte b'|' Comment.blank)) (byte b'|' (byte b'z' Comment.blank))))

abbrev remark_text : List ℕ
remark_text =
    b'#' ∷ b'|' ∷ (comment_text remark ++ b'|' ∷ b'#' ∷ (render false (Datum.truth true) ++ []))

remark-IsPlain : IsPlain remark
unfolding next
remark-IsPlain = ground arith

remark-NoNul : NoNul remark_text
unfolding comment_text render
remark-NoNul = ground arith

remark_short : length (comment_text remark) + length (render false (Datum.truth true)) + 4 < 20
unfolding comment_text render
remark_short = omega arith

mread-comment_example :
    ReadsAs (mread 20) (mreader_init_string remark_text) stored (Datum.truth true) []
mread-comment_example =
    mread-comment remark (Datum.truth true) 20 [] (mreader_init_string remark_text) stored
      stored-IsTable remark-IsPlain tt (unfold is_delimiter in refl) remark_short
      (init_string-Input remark_text remark-NoNul)

-- White space, brackets, a datum comment, a dotted pair and an escape.
echo_list : echo (codes "( #t [1 #;2 -23] . \"x\\n\" ) b") ≡ some (codes "(#t (1 -23) . \"x\\n\")")
unfolding mreader_init_string mread mwrite is_delimiter write_signed to_base digit_char escape_bytes
    escape_byte sign_extend minim.Reader.Datum.read_datum minim.Reader.Datum.datum_step
    minim.Reader.Datum.read_list minim.Reader.Datum.list_loop minim.Reader.Datum.list_step
    minim.Reader.Datum.list_next minim.Reader.Datum.append_cell minim.Reader.Datum.read_hash
    minim.Reader.Datum.hash_step minim.Reader.Datum.read_true minim.Reader.Datum.datum_comment
    minim.Reader.Datum.list_dot minim.Reader.Datum.dotted_cdr minim.Reader.Datum.close_list
    minim.Reader.Datum.sign_step minim.Reader.Datum.atom_step minim.Reader.Tokens.skip_whitespace
    minim.Reader.Tokens.space_step minim.Reader.Tokens.token_loop minim.Reader.Tokens.token_step
    minim.Reader.Tokens.read_token_body minim.Reader.Tokens.read_atom minim.Reader.Tokens.atom_of
    minim.Reader.Tokens.all_decimal_digits minim.Reader.Tokens.some_digits
    minim.Reader.Tokens.all_digits minim.Reader.Tokens.decimal_val minim.Reader.Tokens.decimal_loop
    minim.Reader.Literals.read_string minim.Reader.Literals.string_loop
    minim.Reader.Literals.string_step minim.Reader.Literals.put_byte minim.Reader.Literals.unescape
    minim.Reader.reader_peek minim.Reader.reader_get minim.Reader.c_string minim.Reader.isspace
    minim.Reader.is_symbol_char minim.Reader.is_close_paren minim.Reader.matching_paren
    minim.Reader.skip_char minim.Reader.isdigit minim.Writer.write_to minim.Writer.write_datum
    minim.Writer.write_pair minim.Writer.write_cdrs minim.Writer.write_cdr minim.Writer.write_tail
    minim.Writer.write_typed minim.Writer.write_string minim.Writer.quoted minim.Alloc.mcons
    minim.Alloc.mstring_from_bytes minim.Alloc.gc_alloc minim.Object.mfixnum
    minim.Object.object_size minim.Object.string_size minim.Object.align minim.Prims.negated
    minim.Runtime.mset_cdr minim.Runtime.mcar minim.Runtime.mcdr minim.Equal.mstring_bytes
echo_list = refl

-- The script of the lines -7, #\space and "a\n".
abbrev literals : List Datum
literals = number (2 ^ 61 - 7) ∷ character 32 ∷ text (97 ∷ 10 ∷ []) ∷ []

literals_short : length (script literals) + 3 < 40
unfolding render sign_extend write_signed to_base escape_bytes escape_byte canonical_char
literals_short = omega arith

-- The script calls no primitive.
abbrev no_calls : PrimFn → Mobj → Cmd Mobj
no_calls f v r = fault

main-lines_example :
    (rd : Reader) × (t : Runtime) × (main no_doubles no_calls 40
        (λ i. get_elem? (script literals) i)
        blank
      ≡ closed (lines literals) rd t)
    × IsShut t
main-lines_example =
    main-lines no_doubles no_calls literals 40 (λ i. get_elem? (script literals) i) blank
      (record { unused = λ p h. refl })
      (
        tt,
        omega arith,
        (tt, omega arith, (tt, ((omega arith, (omega arith, tt)), omega arith), tt)),
      )
      literals_short (λ i. refl)
