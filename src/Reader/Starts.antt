-- ===== src/Reader/Starts.antt =====
-- src/read.c: the data that the reader can take, and how the text of one begins.
use minim.Base.{
  ℕ, ◌^◌, ◌≤◌, ◌<◌, ◌≡◌, ◌≢◌, refl, true, false, some, List, [], ◌∷◌, ◌++◌, length, arith,
}
use minim.Writer.{escape_bytes}
use minim.Writer.Data.{Datum, number, character, truth, empty, text, identifier, cons, render}
use minim.Reader.{is_close_paren, isspace}
use minim.Reader.Tokens.{all_decimal_digits}
use minim.Reader.Lexing.{is_dense}
use minim.Reader.Strings.{AllAscii}
use minim.Reader.Chars.{canonical_char-Spelling}
use minim.Reader.Dispatch.{Token, symbol_char-other}
use minim.Reader.Leaf.{write_signed-Token}

-- The data that the reader can take: 61-bit fixnums, the characters of Unicode, strings of at most 255
-- ASCII bytes, symbols of at most 255 bytes that the reader takes for one token and no number and that
-- do not start with a dot, and lists and dotted lists of these.
abbrev pub IsReadable : Datum → Type 0
IsReadable (number n) = n < 2 ^ 61
IsReadable (character c) = c ≤ 0x10FFFF
IsReadable (text bs) = AllAscii bs × (length bs < 256)
IsReadable (identifier s) = Token s × (all_decimal_digits s ≡ false)
IsReadable (cons a b) = IsReadable a × IsReadable b
IsReadable _ = Unit {0}

-- The first character of a datum's text.
pub record Start (s : List ℕ) : Type 0 where
  pub first : ℕ
  pub more : List ℕ
  pub split : s ≡ first ∷ more
  pub dense : is_dense (some first) ≡ true
  pub no_close : is_close_paren (some first) ≡ false
  pub no_dot : first ≢ b'.'

Token-Start : {s : List ℕ} → Token s → Start s
Token-Start t =
    let (o, s, close, dense) = symbol_char-other t.first t.symbol_chars.0 in
    record {
      first = t.first;
      more = t.more;
      split = t.split;
      dense = dense;
      no_close = close;
      no_dot = t.no_dot;
    }

pub render-Start : (d : Datum) → IsReadable d → Start (render false d)
unfolding render is_close_paren isspace
render-Start (number n) h = Token-Start (write_signed-Token n h)
render-Start (character c) h =
    let s = canonical_char-Spelling c h in
    record {
      first = b'#';
      more = b'\\' ∷ s.first ∷ s.more;
      split = s.written;
      dense = refl;
      no_close = refl;
      no_dot = omega arith;
    }
render-Start (truth true) h = record {
  first = b'#';
  more = b't' ∷ [];
  split = refl;
  dense = refl;
  no_close = refl;
  no_dot = omega arith;
}
render-Start (truth false) h = record {
  first = b'#';
  more = b'f' ∷ [];
  split = refl;
  dense = refl;
  no_close = refl;
  no_dot = omega arith;
}
render-Start empty h = record {
  first = b'(';
  more = b')' ∷ [];
  split = refl;
  dense = refl;
  no_close = refl;
  no_dot = omega arith;
}
render-Start (text bs) h = record {
  first = b'"';
  more = escape_bytes bs ++ b'"' ∷ [];
  split = refl;
  dense = refl;
  no_close = refl;
  no_dot = omega arith;
}
render-Start (identifier s) (t, h) = Token-Start t
render-Start (cons a b) h = record {
  first = b'(';
  more = render false a ++ render true b;
  split = refl;
  dense = refl;
  no_close = refl;
  no_dot = omega arith;
}
