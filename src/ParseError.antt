-- ===== src/ParseError.antt =====
-- src/read.c: the errors of the reader, one constructor for each call of `parse_error`, and of
-- `parse_error_c` with the character that its message shows; `none` is EOF.
use minim.Base.{ℕ, Option, List}

pub data ParseError : Type 0 where
  unterminated_comment token_too_long symbol_too_long unterminated_list no_car : ParseError
  unterminated_vector unterminated_string unterminated_escape string_too_long : ParseError
  eof_after_prefix char_name_too_long exceeds_unicode : ParseError
  nothing_to_discard eof_after_hash : ParseError
  expected_hex_digit delimiter_after_hex paren_mismatch expected_close : Option ℕ → ParseError
  unknown_escape non_ascii delimiter_after_char : Option ℕ → ParseError
  delimiter_after_true delimiter_after_false unknown_hash : Option ℕ → ParseError
  unexpected_close unexpected_character : Option ℕ → ParseError
  unknown_char_name : List ℕ → ParseError
