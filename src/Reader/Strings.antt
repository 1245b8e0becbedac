-- ===== src/Reader/Strings.antt =====
-- src/read.c, `read_string`, on what `write_string` of src/write.c puts out.
use mathlib.Core.List.{append_assoc, append-nil}
use minim.Base.{
  ℕ, zero, suc, ◌+◌, ◌<◌, ◌≡◌, ◌≢◌, inl, inr, refl, ◌∙◌, Bool-cases, ==_iff, ==_ne, true, false,
  some, List, [], ◌∷◌, ◌++◌, leb, ◌==◌, length, length-append, arith,
}
use minim.Object.{Mobj}
use minim.Alloc.{mstring_from_bytes}
use minim.Runtime.{Runtime, ok}
use minim.Writer.{escape_byte, escape_bytes}
use minim.Reader.{Reader, Reading, got, ◌>>=◌, call, reader_get}
use minim.Reader.Literals.{unescape, put_byte, string_step, string_loop}
use minim.Reader.Input.{Input, Leaves, reader_get-Leaves}

-- A byte goes out as it is, or as a backslash and a character that reads as it.
data Escaped (c : ℕ) : Type 0 where
  plain : escape_byte c ≡ c ∷ [] → c ≢ b'"' → c ≢ b'\\' → Escaped c
  behind_backslash :
      (e : ℕ)
      → escape_byte c ≡ b'\\' ∷ e ∷ []
      → ((rd : Reader) (r : Runtime) → unescape (some e) rd r ≡ got c rd r)
      → Escaped c

at_special : (c k : ℕ) → (c == k) ≡ true → Escaped k → Escaped c
at_special c k h e = rw ((==_iff c k).0 h) e

escape_byte-Escaped : (c : ℕ) → Escaped c
unfolding escape_byte unescape
escape_byte-Escaped c = elim (Bool-cases (c == b'\\')) [
  | inl h ↦ at_special c b'\\' h (behind_backslash b'\\' refl (λ rd r. refl))
  | inr slash ↦ elim (Bool-cases (c == b'"')) [
    | inl h ↦ at_special c b'"' h (behind_backslash b'"' refl (λ rd r. refl))
    | inr quote ↦ elim (Bool-cases (c == b'\n')) [
      | inl h ↦ at_special c b'\n' h (behind_backslash b'n' refl (λ rd r. refl))
      | inr newline ↦ elim (Bool-cases (c == b'\t')) [
        | inl h ↦ at_special c b'\t' h (behind_backslash b't' refl (λ rd r. refl))
        | inr tab ↦ elim (Bool-cases (c == b'\r')) [
          | inl h ↦ at_special c b'\r' h (behind_backslash b'r' refl (λ rd r. refl))
          | inr return ↦
              plain (rw (slash, quote, newline, tab, return) refl) (ground arith) (ground arith)
        ]
      ]
    ]
  ]
]

pub put_byte_fits :
    (again : List ℕ → Reading Mobj) (buf : List ℕ) (c : ℕ)
    → c < 128
    → length buf + 1 < 256
    → (rd : Reader) (r : Runtime) → put_byte again buf c rd r ≡ again (buf ++ c ∷ []) rd r
unfolding put_byte
put_byte_fits again buf c small room rd r =
    let ascii : leb 0x80 c ≡ false = ground arith in
    let fits : leb 256 (length buf + 1) ≡ false = ground arith in rw (ascii, fits) refl

string_step_plain :
    (again : List ℕ → Reading Mobj) (buf : List ℕ) (c : ℕ)
    → c ≢ b'"'
    → c ≢ b'\\'
    → (rd : Reader) (r : Runtime) → string_step again buf (some c) rd r ≡ put_byte again buf c rd r
unfolding string_step
string_step_plain again buf c not_quote not_slash rd r =
    rw (==_ne c b'"' not_quote, ==_ne c b'\\' not_slash) refl

-- One byte of the string is read, and goes to the checks.
pub string_loop_char :
    (fuel : ℕ) (buf : List ℕ) (c : ℕ) (cs : List ℕ) (rd : Reader) (r : Runtime)
    → Input rd (escape_byte c ++ cs)
    → (rd' : Reader) × (string_loop (suc fuel) buf rd r
        ≡ put_byte (λ (b : List ℕ). string_loop fuel b) buf c rd' r)
      × Input rd' cs
unfolding string_loop string_step
string_loop_char fuel buf c cs rd r i = elim (escape_byte-Escaped c) [
  | plain out not_quote not_slash ↦
      let (rd1, e1, i1) = reader_get-Leaves rd r (c ∷ cs) (rw out at i) in
      (
        rd1,
        rw (e1, string_loop)
            (string_step_plain (λ (b : List ℕ). string_loop fuel b) buf c not_quote not_slash rd1
              r),
        i1,
      )
  | behind_backslash e out reads ↦
      let (rd1, e1, i1) = reader_get-Leaves rd r (b'\\' ∷ e ∷ cs) (rw out at i) in
      let (rd2, e2, i2) = reader_get-Leaves rd1 r (e ∷ cs) i1 in
      (rd2, rw (e1, string_loop) (rw (e2, string_step) (rw (reads rd2 r) refl)), i2)
]

-- The byte passes them.
string_loop_byte :
    (fuel : ℕ) (buf : List ℕ) (c : ℕ) (cs : List ℕ) (rd : Reader) (r : Runtime)
    → c < 128
    → length buf + 1 < 256
    → Input rd (escape_byte c ++ cs)
    → (rd' : Reader) × (string_loop (suc fuel) buf rd r ≡ string_loop fuel (buf ++ c ∷ []) rd' r)
      × Input rd' cs
string_loop_byte fuel buf c cs rd r small room i =
    let (rd', e, i') = string_loop_char fuel buf c cs rd r i in
    (rd', e ∙ put_byte_fits (λ (b : List ℕ). string_loop fuel b) buf c small room rd' r, i')

string_step_end :
    (again : List ℕ → Reading Mobj) (buf : List ℕ)
    → string_step again buf (some b'"') ≡ call (mstring_from_bytes buf)
unfolding string_step
string_step_end again buf = refl

pub string_loop_round :
    (fuel : ℕ) (buf : List ℕ)
    → string_loop (suc fuel) buf
      ≡ (reader_get >>= string_step (λ (b : List ℕ). string_loop fuel b) buf)
unfolding string_loop
string_loop_round fuel buf = refl

string_loop_end :
    (fuel : ℕ) (buf : List ℕ) (rd rd' : Reader) (r t : Runtime) (v : Mobj)
    → reader_get rd r ≡ got (some b'"') rd' r
    → mstring_from_bytes buf r ≡ ok v t
    → string_loop (suc fuel) buf rd r ≡ got v rd' t
string_loop_end fuel buf rd rd' r t v e made =
    rw (string_loop_round fuel buf, e)
      (rw (string_step_end (λ (b : List ℕ). string_loop fuel b) buf) (rw made refl))

abbrev pub AllAscii : List ℕ → Type 0
AllAscii [] = Unit {0}
AllAscii (c ∷ cs) = (c < 128) × AllAscii cs

pub string_loop-Leaves :
    (fuel : ℕ) (buf bs rest : List ℕ) (rd : Reader) (r t : Runtime) (v : Mobj)
    → AllAscii bs
    → length buf + length bs < 256
    → length bs < fuel
    → mstring_from_bytes (buf ++ bs) r ≡ ok v t
    → Input rd (escape_bytes bs ++ b'"' ∷ rest)
    → Leaves (string_loop fuel buf) rd r v rest t
unfolding escape_bytes
string_loop-Leaves zero buf bs rest rd r t v ascii room enough made i = absurd (omega arith)
string_loop-Leaves (suc fuel) buf [] rest rd r t v ascii room enough made i =
    let (rd1, e1, i1) = reader_get-Leaves rd r (b'"' ∷ rest) i in
    (rd1, string_loop_end fuel buf rd rd1 r t v e1 (rw append-nil at made), i1)
string_loop-Leaves (suc fuel) buf (c ∷ bs) rest rd r t v (small, ascii) room enough made i =
    let (rd1, e1, i1) =
      string_loop_byte fuel buf c (escape_bytes bs ++ b'"' ∷ rest) rd r small (omega arith)
        (rw append_assoc at i) in
    let (rd2, e2, i2) =
      string_loop-Leaves fuel (buf ++ c ∷ []) bs rest rd1 r t v ascii
        (omega (arith, length-append buf (c ∷ []))) (omega arith) (rw append_assoc made) i1 in
    (rd2, e1 ∙ e2, i2)
