-- ===== src/Reader/Lexing.antt =====
-- src/read.c: where white space and tokens end.
use mathlib.Core.List.{append-nil, append_assoc}
use minim.Base.{
  ℕ, zero, suc, ◌+◌, ◌<◌, ◌≡◌, refl, sym, ◌∙◌, Bool, true, false, not, ◌||◌, Option, none, some,
  List, [], ◌∷◌, ◌++◌, leb, ◌==◌, length, length-append, arith,
}
use minim.ParseError.{ParseError}
use minim.Runtime.{Runtime}
use minim.Reader.{Reader, Reading, got, skip_char, ◌>>=◌, isspace, is_delimiter, is_symbol_char}
use minim.Reader.Tokens.{skip_line, skip_whitespace, space_step, token_loop, token_step}
use minim.Reader.Input.{Input, Leaves, head?, reader_get-Leaves, reader_peek-Leaves}

-- EOF, or a character that is no white space and starts no comment.
abbrev pub is_dense : Option ℕ → Bool
is_dense none = true
is_dense (some c) = not (isspace c || c == b';')

pub skip_char-Leaves :
    (rd : Reader) (r : Runtime) (c : ℕ) (cs : List ℕ)
    → Input rd (c ∷ cs)
    → Leaves skip_char rd r tt cs r
unfolding skip_char
skip_char-Leaves rd r c cs i =
    let (rd1, e, i1) = reader_get-Leaves rd r (c ∷ cs) i in (rd1, rw e refl, i1)

space_step_dense :
    (line again : Reading (Unit {0})) (o : Option ℕ)
    → is_dense o ≡ true
    → (rd : Reader) (r : Runtime) → space_step line again o rd r ≡ got tt rd r
unfolding space_step
space_step_dense line again none h rd r = refl
space_step_dense line again (some c) h rd r = ground arith

pub skip_whitespace_dense :
    (fuel : ℕ) (rd : Reader) (r : Runtime) (cs : List ℕ)
    → is_dense (head? cs) ≡ true
    → Input rd cs
    → Leaves (skip_whitespace (suc fuel)) rd r tt cs r
unfolding skip_whitespace
skip_whitespace_dense fuel rd r cs h i =
    let (rd1, e, i1) = reader_peek-Leaves rd r cs i in
    (rd1, rw (e, skip_whitespace) (space_step_dense _ _ (head? cs) h rd1 r), i1)

-- One space, and then what is no space.
pub skip_whitespace_space :
    (fuel : ℕ) (rd : Reader) (r : Runtime) (cs : List ℕ)
    → is_dense (head? cs) ≡ true
    → Input rd (b' ' ∷ cs)
    → Leaves (skip_whitespace (suc (suc fuel))) rd r tt cs r
unfolding skip_whitespace space_step isspace
skip_whitespace_space fuel rd r cs h i =
    let (rd1, e1, i1) = reader_peek-Leaves rd r (b' ' ∷ cs) i in
    let (rd2, e2, i2) = skip_char-Leaves rd1 r b' ' cs i1 in
    let (rd3, e3, i3) = skip_whitespace_dense fuel rd2 r cs h i2 in
    (rd3, rw (e1, skip_whitespace) (rw (e2, space_step) e3), i3)

abbrev pub AllSymbol : List ℕ → Type 0
AllSymbol [] = Unit {0}
AllSymbol (c ∷ cs) = (is_symbol_char (some c) ≡ true) × AllSymbol cs

token_step_stop :
    (again : List ℕ → Reading (List ℕ)) (e : ParseError) (cap : ℕ) (buf : List ℕ) (o : Option ℕ)
    → is_delimiter o ≡ true
    → (rd : Reader) (r : Runtime) → token_step again e cap buf o rd r ≡ got buf rd r
unfolding token_step is_symbol_char
token_step_stop again e cap buf none h rd r = refl
token_step_stop again e cap buf (some c) h rd r = rw h refl

token_step_more :
    (again : List ℕ → Reading (List ℕ)) (e : ParseError) (cap : ℕ) (buf : List ℕ) (c : ℕ)
    → is_symbol_char (some c) ≡ true
    → length buf + 1 < cap
    → (rd : Reader) (r : Runtime)
    → token_step again e cap buf (some c) rd r ≡ (skip_char >>= λ _. again (buf ++ c ∷ [])) rd r
unfolding token_step
token_step_more again e cap buf c h room rd r =
    let fits : leb cap (length buf + 1) ≡ false = ground arith in rw (h, fits) refl

-- A token is read up to a delimiter, if it fits into the buffer.
pub token_loop-Leaves :
    (e : ParseError) (cap fuel : ℕ) (buf cs rest : List ℕ) (rd : Reader) (r : Runtime)
    → AllSymbol cs
    → is_delimiter (head? rest) ≡ true
    → length buf + length cs < cap
    → length cs < fuel
    → Input rd (cs ++ rest)
    → Leaves (token_loop e cap fuel buf) rd r (buf ++ cs) rest r
unfolding token_loop
token_loop-Leaves e cap zero buf cs rest rd r all stop room enough i = absurd (omega arith)
token_loop-Leaves e cap (suc fuel) buf [] rest rd r all stop room enough i =
    let (rd1, e1, i1) = reader_peek-Leaves rd r rest i in
    (
      rd1,
      rw (e1, token_loop)
          (rw append-nil (
            token_step_stop (λ (b : List ℕ). token_loop e cap fuel b) e cap buf (head? rest) stop
              rd1 r)),
      i1,
    )
token_loop-Leaves e cap (suc fuel) buf (c ∷ cs) rest rd r all stop room enough i =
    let (rd1, e1, i1) = reader_peek-Leaves rd r (c ∷ (cs ++ rest)) i in
    let (rd2, e2, i2) = skip_char-Leaves rd1 r c (cs ++ rest) i1 in
    let (rd3, e3, i3) =
      token_loop-Leaves e cap fuel (buf ++ c ∷ []) cs rest rd2 r all.1 stop
        (omega (arith, length-append buf (c ∷ []))) (omega arith) i2 in
    (
      rd3,
      rw (e1, token_loop)
          (token_step_more (λ (b : List ℕ). token_loop e cap fuel b) e cap buf c all.0 (omega arith)
              rd1 r
            ∙ rw e2 (e3 ∙ rw append_assoc refl)),
      i3,
    )

-- With no white space ahead, the fuel does not matter.
pub skip_whitespace_fuel :
    (f g : ℕ) (rd : Reader) (r : Runtime) (cs : List ℕ)
    → is_dense (head? cs) ≡ true
    → Input rd cs
    → skip_whitespace (suc f) rd r ≡ skip_whitespace (suc g) rd r
unfolding skip_whitespace
skip_whitespace_fuel f g rd r cs h i =
    let (rd1, e, i1) = reader_peek-Leaves rd r cs i in
    rw (e, skip_whitespace)
      (space_step_dense (skip_line f) (skip_whitespace f) (head? cs) h rd1 r
        ∙ sym (space_step_dense (skip_line g) (skip_whitespace g) (head? cs) h rd1 r))

-- A newline is skipped.
pub skip_whitespace_newline :
    (fuel : ℕ) (rd : Reader) (r : Runtime) (cs : List ℕ)
    → Input rd (b'\n' ∷ cs)
    → (rd' : Reader) × (skip_whitespace (suc (suc fuel)) rd r ≡ skip_whitespace (suc fuel) rd' r)
      × Input rd' cs
unfolding skip_whitespace space_step isspace
skip_whitespace_newline fuel rd r cs i =
    let (rd1, e1, i1) = reader_peek-Leaves rd r (b'\n' ∷ cs) i in
    let (rd2, e2, i2) = skip_char-Leaves rd1 r b'\n' cs i1 in
    (rd2, rw (e1, skip_whitespace) (rw (e2, space_step) refl), i2)
