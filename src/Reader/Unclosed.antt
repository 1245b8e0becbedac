-- ===== src/Reader/Unclosed.antt =====
-- src/read.c, `read_string`, on a literal that the input ends in.
use minim.Base.{
  ℕ, zero, suc, ◌+◌, ◌<◌, ◌≡◌, inl, inr, refl, ◌∙◌, Bool-cases, true, false, none, some, List, [],
  ◌∷◌, ◌++◌, leb, length, length-append, arith, if◌then◌else◌,
}
use minim.Object.{Mobj}
use minim.ParseError.{ParseError, unterminated_string, string_too_long, non_ascii}
use minim.Runtime.{Runtime, parse_error}
use minim.Writer.{escape_bytes}
use minim.Reader.{Reader, Reading, failed, isspace}
use minim.Reader.Literals.{put_byte, string_step, string_loop, read_string}
use minim.Reader.Datum.{read_datum, mread}
use minim.Reader.Input.{Input, reader_get-Leaves}
use minim.Reader.Strings.{string_loop_char, string_loop_round, put_byte_fits}
use minim.Reader.Dispatch.{read_datum_round}
use minim.Reader.Leaf.{read_string-text, length-escape_bytes}

-- What is wrong with the contents of a literal that has no end, behind `n` bytes: the first byte that
-- is not ASCII or for which there is no room, or else that the literal has no end.
unfoldable pub complaint : ℕ → List ℕ → ParseError
complaint n [] = unterminated_string
complaint n (c ∷ cs) =
    let later = complaint (suc n) cs in
    if leb 128 c then non_ascii (some c) else if leb 255 n then string_too_long else later

-- A parse error is raised, and the runtime is as it was.
abbrev pub FailsWith : ParseError → Reading Mobj → Reader → Runtime → Type 0
FailsWith e m rd r = (rd' : Reader) × (m rd r ≡ failed (parse_error e) rd' r)

put_byte_non_ascii :
    (again : List ℕ → Reading Mobj) (buf : List ℕ) (c : ℕ) (rd : Reader) (r : Runtime)
    → leb 128 c ≡ true
    → put_byte again buf c rd r ≡ failed (parse_error (non_ascii (some c))) rd r
unfolding put_byte
put_byte_non_ascii again buf c rd r h = rw h refl

put_byte_too_long :
    (again : List ℕ → Reading Mobj) (buf : List ℕ) (c : ℕ) (rd : Reader) (r : Runtime)
    → leb 128 c ≡ false
    → leb 255 (length buf) ≡ true
    → put_byte again buf c rd r ≡ failed (parse_error string_too_long) rd r
unfolding put_byte
put_byte_too_long again buf c rd r small full =
    let over : leb 256 (length buf + 1) ≡ true = ground arith in rw (small, over) refl

string_step_eof :
    (again : List ℕ → Reading Mobj) (buf : List ℕ) (rd : Reader) (r : Runtime)
    → string_step again buf none rd r ≡ failed (parse_error unterminated_string) rd r
unfolding string_step
string_step_eof again buf rd r = refl

string_loop-complaint :
    (fuel : ℕ) (buf bs : List ℕ) (rd : Reader) (r : Runtime)
    → length bs < fuel
    → Input rd (escape_bytes bs)
    → FailsWith (complaint (length buf) bs) (string_loop fuel buf) rd r
unfolding escape_bytes complaint
string_loop-complaint zero buf bs rd r enough i = absurd (omega arith)
string_loop-complaint (suc fuel) buf [] rd r enough i =
    let (rd1, e1, i1) = reader_get-Leaves rd r [] i in
    (
      rd1,
      rw (string_loop_round fuel buf, e1)
          (string_step_eof (λ (b : List ℕ). string_loop fuel b) buf rd1 r),
    )
string_loop-complaint (suc fuel) buf (c ∷ bs) rd r enough i =
    let (rd1, e1, i1) = string_loop_char fuel buf c (escape_bytes bs) rd r i in
    let again = λ (b : List ℕ). string_loop fuel b in
    elim (Bool-cases (leb 128 c)) [
      | inl high ↦ (rd1, e1 ∙ rw high (put_byte_non_ascii again buf c rd1 r high))
      | inr low ↦ elim (Bool-cases (leb 255 (length buf))) [
        | inl full ↦ (rd1, e1 ∙ rw (low, full) (put_byte_too_long again buf c rd1 r low full))
        | inr room ↦
            let (rd2, e2) = string_loop-complaint fuel (buf ++ c ∷ []) bs rd1 r (omega arith) i1 in
            let fits = put_byte_fits again buf c (ground arith) (ground arith) rd1 r in
            let longer : length (buf ++ c ∷ []) ≡ suc (length buf) =
              omega (arith, length-append buf (c ∷ [])) in
            (rd2, e1 ∙ fits ∙ (rw (low, room) (rw longer at e2)))
      ]
    ]

-- Where the input ends in a string literal that is not closed, its contents any bytes with the writer's
-- escapes, Mread raises the error of the first of these bytes that is not ASCII, or that is the 256th,
-- and the error of a string without an end if there is neither; with fuel above the length of the input
-- and one it always ends so, and the runtime is as it was.
pub mread-unclosed :
    (bs : List ℕ) (fuel : ℕ) (rd : Reader) (r : Runtime)
    → length (escape_bytes bs) + 2 < fuel
    → Input rd (b'"' ∷ escape_bytes bs)
    → FailsWith (complaint 0 bs) (mread fuel) rd r
unfolding mread isspace read_string
mread-unclosed bs zero rd r enough i = absurd (omega arith)
mread-unclosed bs (suc zero) rd r enough i = absurd (omega arith)
mread-unclosed bs (suc (suc fuel)) rd r enough i =
    let (rd1, e1, i1) = read_datum_round fuel b'"' _ rd r refl i in
    let (rd2, e2) =
      string_loop-complaint (suc fuel) [] bs rd1 r (omega (arith, length-escape_bytes bs)) i1 in
    (rd2, e1 ∙ (rw (read_string-text (read_datum (suc fuel)) (suc fuel)) e2))
