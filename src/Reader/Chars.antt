-- ===== src/Reader/Chars.antt =====
-- src/read.c, `read_char`, on what `write_char` of src/write.c puts out.
use mathlib.Core.List.{append-nil}
use minim.Base.{
  ℕ, suc, ◌≤◌, ◌<◌, ◌≡◌, ◌⊎◌, inl, inr, refl, ◌∙◌, Bool, true, false, ◌&&◌, List, [], ◌∷◌, ◌++◌,
  length, arith, Bool-cases, ◌==◌, leb, ==_iff, codes, some, Option,
}
use minim.Object.{char}
use minim.ParseError.{char_name_too_long}
use minim.Runtime.{Runtime}
use minim.Writer.{canonical_char, write_hex}
use minim.Reader.{
  c_string, Reader, got, ◌>>=◌, pure, reader_peek, isalpha, is_delimiter, is_symbol_char, isspace,
  hex_digit_val,
}
use minim.Reader.Literals.{
  all_hex, hex_code, char_of, char_body, char_step, read_char, read_named, char_name_lookup,
  lookup_name,
}
use minim.Symbol.{bytes_eq}
use minim.Reader.Input.{Input, Leaves, head?, reader_get-Leaves, reader_peek-Leaves}
use minim.Reader.Lexing.{AllSymbol, token_loop-Leaves}
use minim.Reader.Digits.{
  Digits, to_base-Digits, length-Digits, length-Digits_pos, all_hex-Digits, hex_code-Digits,
  AllSymbol-Digits,
}

-- How a character is written behind `#\`, and that this stands for it.
pub record Spelling (c : ℕ) : Type 0 where
  pub first : ℕ
  pub more : List ℕ
  pub written : canonical_char c ≡ b'#' ∷ b'\\' ∷ first ∷ more
  pub named : (isalpha first ≡ true) ⊎ (more ≡ [])
  pub symbol_chars : AllSymbol more
  pub short : length more < 63
  pub stands_for : (rd : Reader) (r : Runtime) → char_of (first ∷ more) rd r ≡ got (char c) rd r

abbrev all_symbol : List ℕ → Bool
all_symbol [] = true
all_symbol (c ∷ cs) = is_symbol_char (some c) && all_symbol cs

all_symbol-AllSymbol : (cs : List ℕ) → all_symbol cs ≡ true → AllSymbol cs
all_symbol-AllSymbol [] h = tt
all_symbol-AllSymbol (c ∷ cs) h = elim (Bool-cases (is_symbol_char (some c))) [
  | inl yes_symbol ↦ (yes_symbol, all_symbol-AllSymbol cs (rw yes_symbol at h))
  | inr other ↦ absurd (cc (rw other at h))
]

at_code : (c k : ℕ) → (c == k) ≡ true → Spelling k → Spelling c
at_code c k h e = rw ((==_iff c k).0 h) e

-- A name of the table.
by_name :
    (c first : ℕ) (more : List ℕ)
    → canonical_char c ≡ b'#' ∷ b'\\' ∷ first ∷ more
    → isalpha first ≡ true
    → all_symbol more ≡ true
    → length more < 63
    → ((rd : Reader) (r : Runtime) → char_of (first ∷ more) rd r ≡ got (char c) rd r)
    → Spelling c
by_name c first more written letter test short stands_for = record {
  first = first;
  more = more;
  written = written;
  named = inl letter;
  symbol_chars = all_symbol-AllSymbol more test;
  short = short;
  stands_for = stands_for;
}

all_hex-back : {n : ℕ} (ds : List ℕ) → Digits 16 n ds → all_hex ds ≡ true
unfolding all_hex
all_hex-back ds d = rw append-nil at (all_hex-Digits [] d)

hex_code-back :
    {n : ℕ} (ds : List ℕ) (rd : Reader) (r : Runtime)
    → Digits 16 n ds
    → n ≤ 0x10FFFF
    → hex_code 0 ds rd r ≡ got n rd r
unfolding hex_code
hex_code-back ds rd r d h = rw append-nil at (hex_code-Digits [] rd r d h)

char_of_round :
    (ds : List ℕ)
    → 0 < length ds
    → all_hex ds ≡ true
    → char_of (b'x' ∷ ds) ≡ (hex_code 0 ds >>= λ code. pure (char code))
unfolding char_of
char_of_round [] h all = elim h [ ]
char_of_round (d ∷ ds) h all = rw all refl

char_of_hex :
    (n : ℕ) (ds : List ℕ) (rd : Reader) (r : Runtime)
    → Digits 16 n ds
    → n ≤ 0x10FFFF
    → char_of (b'x' ∷ ds) rd r ≡ got (char n) rd r
char_of_hex n ds rd r d h =
    rw (char_of_round ds (length-Digits_pos d) (all_hex-back ds d), hex_code-back ds rd r d h) refl

hex_Digits : (n : ℕ) → n ≤ 0x10FFFF → Digits 16 n (write_hex n)
unfolding write_hex
hex_Digits n h = to_base-Digits 16 63 n (omega arith) (λ m. omega arith) (omega arith)

by_hex : (n : ℕ) → n ≤ 0x10FFFF → canonical_char n ≡ b'#' ∷ b'\\' ∷ b'x' ∷ write_hex n → Spelling n
unfolding isalpha
by_hex n h written =
    let d = hex_Digits n h in
    let few : length (write_hex n) ≤ suc 20 =
      length-Digits (omega arith) (λ m. omega arith) 20 d (omega arith) in
    record {
      first = b'x';
      more = write_hex n;
      written = written;
      named = inl refl;
      symbol_chars = AllSymbol-Digits (omega arith) (omega arith) d;
      short = omega arith;
      stands_for = λ rd r. char_of_hex n (write_hex n) rd r d h;
    }

by_itself : (c : ℕ) → canonical_char c ≡ b'#' ∷ b'\\' ∷ c ∷ [] → Spelling c
unfolding char_of
by_itself c written = record {
  first = c;
  more = [];
  written = written;
  named = inr refl;
  symbol_chars = tt;
  short = omega arith;
  stands_for = λ rd r. refl;
}

-- A character without a name: itself if it is printable, or its digits.
unnamed :
    (c : ℕ)
    → c ≤ 0x10FFFF
    → (c == 0x00) ≡ false
    → (c == 0x07) ≡ false
    → (c == 0x08) ≡ false
    → (c == 0x09) ≡ false
    → (c == 0x0A) ≡ false
    → (c == 0x0D) ≡ false
    → (c == 0x1B) ≡ false
    → (c == 0x20) ≡ false
    → (c == 0x7F) ≡ false
    → Spelling c
unfolding canonical_char
unnamed c h n0 n1 n2 n3 n4 n5 n6 n7 n8 = elim (Bool-cases (leb 0x21 c && leb c 0x7E)) [
  | inl printable ↦ by_itself c (rw (n0, n1, n2, n3, n4, n5, n6, n7, n8, printable) refl)
  | inr other ↦ by_hex c h (rw (n0, n1, n2, n3, n4, n5, n6, n7, n8, other) refl)
]

-- Each character of Unicode has a spelling that stands for it.
pub canonical_char-Spelling : (c : ℕ) → c ≤ 0x10FFFF → Spelling c
unfolding canonical_char isalpha is_symbol_char isspace is_delimiter char_of all_hex hex_digit_val
    read_named char_name_lookup lookup_name bytes_eq c_string
canonical_char-Spelling c h = elim (Bool-cases (c == 0x00)) [
  | inl e ↦
      at_code c 0x00 e (by_name 0x00 b'n' (codes "ull") refl refl refl (omega arith) (λ rd r. refl))
  | inr n0 ↦ elim (Bool-cases (c == 0x07)) [
    | inl e ↦
        at_code c 0x07 e
          (by_name 0x07 b'a' (codes "larm") refl refl refl (omega arith) (λ rd r. refl))
    | inr n1 ↦ elim (Bool-cases (c == 0x08)) [
      | inl e ↦
          at_code c 0x08 e
            (by_name 0x08 b'b' (codes "ackspace") refl refl refl (omega arith) (λ rd r. refl))
      | inr n2 ↦ elim (Bool-cases (c == 0x09)) [
        | inl e ↦
            at_code c 0x09 e
              (by_name 0x09 b't' (codes "ab") refl refl refl (omega arith) (λ rd r. refl))
        | inr n3 ↦ elim (Bool-cases (c == 0x0A)) [
          | inl e ↦
              at_code c 0x0A e
                (by_name 0x0A b'n' (codes "ewline") refl refl refl (omega arith) (λ rd r. refl))
          | inr n4 ↦ elim (Bool-cases (c == 0x0D)) [
            | inl e ↦
                at_code c 0x0D e
                  (by_name 0x0D b'r' (codes "eturn") refl refl refl (omega arith) (λ rd r. refl))
            | inr n5 ↦ elim (Bool-cases (c == 0x1B)) [
              | inl e ↦
                  at_code c 0x1B e
                    (by_name 0x1B b'e' (codes "scape") refl refl refl (omega arith) (λ rd r. refl))
              | inr n6 ↦ elim (Bool-cases (c == 0x20)) [
                | inl e ↦
                    at_code c 0x20 e
                      (by_name 0x20 b's' (codes "pace") refl refl refl (omega arith) (λ rd r. refl))
                | inr n7 ↦ elim (Bool-cases (c == 0x7F)) [
                  | inl e ↦ at_code c 0x7F e (
                      by_name 0x7F b'd' (codes "elete") refl refl refl (omega arith) (λ rd r. refl))
                  | inr n8 ↦ unnamed c h n0 n1 n2 n3 n4 n5 n6 n7 n8
                ]
              ]
            ]
          ]
        ]
      ]
    ]
  ]
]

char_body-Leaves :
    (fuel first : ℕ) (more rest : List ℕ) (rd : Reader) (r : Runtime)
    → (isalpha first ≡ true) ⊎ (more ≡ [])
    → AllSymbol more
    → is_delimiter (head? rest) ≡ true
    → length more < 63
    → length more < fuel
    → Input rd (more ++ rest)
    → Leaves (char_body fuel first) rd r (first ∷ more) rest r
unfolding char_body
char_body-Leaves fuel first more rest rd r named all stop room enough i =
    elim (Bool-cases (isalpha first)) [
      | inl letter ↦
          let (rd1, e1, i1) =
            token_loop-Leaves char_name_too_long 64 fuel (first ∷ []) more rest rd r all stop
              (omega arith) enough i in
          (rd1, rw letter e1, i1)
      | inr other ↦ elim named [
        | inl letter ↦ absurd (cc)
        | inr empty ↦ rw empty (rd, rw other refl, rw empty at i)
      ]
    ]

char_step_lem :
    (fuel first : ℕ) (buf : List ℕ) (d : Option ℕ) (rd rd1 rd2 : Reader) (r : Runtime)
    → char_body fuel first rd r ≡ got buf rd1 r
    → reader_peek rd1 r ≡ got d rd2 r
    → is_delimiter d ≡ true
    → char_step fuel (some first) rd r ≡ char_of buf rd2 r
unfolding char_step
char_step_lem fuel first buf d rd rd1 rd2 r body peek stop =
    rw (body, char_step) (rw (peek, char_step) (rw stop refl))

-- A character that was written is read back, and what follows it is left.
pub read_char-Leaves :
    (fuel c : ℕ) (rest : List ℕ) (rd : Reader) (r : Runtime) (s : Spelling c)
    → is_delimiter (head? rest) ≡ true
    → length s.more < fuel
    → Input rd (s.first ∷ (s.more ++ rest))
    → Leaves (read_char fuel) rd r (char c) rest r
unfolding read_char
read_char-Leaves fuel c rest rd r s stop enough i =
    let (rd1, e1, i1) = reader_get-Leaves rd r _ i in
    let (rd2, e2, i2) =
      char_body-Leaves fuel s.first s.more rest rd1 r s.named s.symbol_chars stop s.short enough
        i1 in
    let (rd3, e3, i3) = reader_peek-Leaves rd2 r rest i2 in
    (
      rd3,
      rw (e1, read_char)
          (char_step_lem fuel s.first _ _ rd1 rd2 rd3 r e2 e3 stop ∙ s.stands_for rd3 r),
      i3,
    )
