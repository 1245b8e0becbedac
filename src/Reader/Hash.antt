-- ===== src/Reader/Hash.antt =====
-- src/read.c, `read_hash`: characters and booleans as src/write.c writes them.
use minim.Base.{
  ℕ, suc, ◌≤◌, ◌<◌, ◌≡◌, refl, ap, ◌∙◌, Bool, true, false, some, List, ◌∷◌, ◌++◌, length, arith,
  codes, if◌then◌else◌,
}
use minim.Object.{Mobj, char, mtrue, mfalse}
use minim.Runtime.{Runtime}
use minim.Symbol.Laws.{IsTable}
use minim.Writer.{canonical_char}
use minim.Writer.Data.{character, truth}
use minim.Reader.{Reader, Reading, got, reader_get, is_delimiter, isspace}
use minim.Reader.Literals.{read_char}
use minim.Reader.Datum.{read_datum, datum_step, read_hash, hash_step, read_true, read_false}
use minim.Reader.Input.{Input, Leaves, head?, reader_get-Leaves, reader_peek-Leaves}
use minim.Reader.Chars.{Spelling, canonical_char-Spelling, read_char-Leaves}
use minim.Reader.Dispatch.{ReadsAs, Leaves-ReadsAs, read_datum_round}

datum_step-hash :
    (read : Reading Mobj) (fuel c : ℕ) (rd rd' : Reader) (r : Runtime)
    → reader_get rd r ≡ got (some c) rd' r
    → datum_step read fuel (some b'#') rd r ≡ hash_step read fuel (some c) rd' r
unfolding datum_step read_hash
datum_step-hash read fuel c rd rd' r e = rw e refl

-- The dispatch at `#` and a character.
hash_round :
    (fuel c : ℕ) (cs : List ℕ) (rd : Reader) (r : Runtime)
    → Input rd (b'#' ∷ c ∷ cs)
    → (rd' : Reader) × (read_datum (suc (suc fuel)) rd r
        ≡ hash_step (read_datum (suc fuel)) (suc fuel) (some c) rd' r)
      × Input rd' cs
unfolding isspace
hash_round fuel c cs rd r i =
    let (rd1, e1, i1) = read_datum_round fuel b'#' (c ∷ cs) rd r refl i in
    let (rd2, e2, i2) = reader_get-Leaves rd1 r (c ∷ cs) i1 in
    (rd2, e1 ∙ datum_step-hash (read_datum (suc fuel)) (suc fuel) c rd1 rd2 r e2, i2)

hash_step-char :
    (read : Reading Mobj) (fuel : ℕ) → hash_step read fuel (some b'\\') ≡ read_char fuel
unfolding hash_step
hash_step-char read fuel = refl

spelled-ReadsAs :
    (fuel c : ℕ) (rest : List ℕ) (rd : Reader) (r : Runtime) (s : Spelling c)
    → IsTable r
    → is_delimiter (head? rest) ≡ true
    → length (canonical_char c) < fuel
    → Input rd (canonical_char c ++ rest)
    → ReadsAs (read_datum (suc (suc fuel))) rd r (character c) rest
spelled-ReadsAs fuel c rest rd r s table stop enough i =
    let (rd1, e1, i1) =
      hash_round fuel b'\\' (s.first ∷ (s.more ++ rest)) rd r (rw s.written at i) in
    let (rd2, e2, i2) =
      read_char-Leaves (suc fuel) c rest rd1 r s stop (omega (arith, ap length s.written)) i1 in
    Leaves-ReadsAs _ rd r (character c) rest (char c) table refl
      (rd2, e1 ∙ rw (hash_step-char (read_datum (suc fuel)) (suc fuel)) e2, i2)

-- A character is read back, before a delimiter.
pub character-ReadsAs :
    (fuel c : ℕ) (rest : List ℕ) (rd : Reader) (r : Runtime)
    → IsTable r
    → c ≤ 0x10FFFF
    → is_delimiter (head? rest) ≡ true
    → length (canonical_char c) < fuel
    → Input rd (canonical_char c ++ rest)
    → ReadsAs (read_datum (suc (suc fuel))) rd r (character c) rest
character-ReadsAs fuel c rest rd r table h stop enough i =
    spelled-ReadsAs fuel c rest rd r (canonical_char-Spelling c h) table stop enough i

true-Leaves :
    (read : Reading Mobj) (fuel : ℕ) (rest : List ℕ) (rd : Reader) (r : Runtime)
    → is_delimiter (head? rest) ≡ true
    → Input rd rest
    → Leaves (hash_step read fuel (some b't')) rd r mtrue rest r
unfolding hash_step read_true
true-Leaves read fuel rest rd r stop i =
    let (rd1, e1, i1) = reader_peek-Leaves rd r rest i in (rd1, rw e1 (rw stop refl), i1)

false-Leaves :
    (read : Reading Mobj) (fuel : ℕ) (rest : List ℕ) (rd : Reader) (r : Runtime)
    → is_delimiter (head? rest) ≡ true
    → Input rd rest
    → Leaves (hash_step read fuel (some b'f')) rd r mfalse rest r
unfolding hash_step read_false
false-Leaves read fuel rest rd r stop i =
    let (rd1, e1, i1) = reader_peek-Leaves rd r rest i in (rd1, rw e1 (rw stop refl), i1)

pub truth-ReadsAs :
    (fuel : ℕ) (b : Bool) (rest : List ℕ) (rd : Reader) (r : Runtime)
    → IsTable r
    → is_delimiter (head? rest) ≡ true
    → Input rd ((if b then codes "#t" else codes "#f") ++ rest)
    → ReadsAs (read_datum (suc (suc fuel))) rd r (truth b) rest
truth-ReadsAs fuel true rest rd r table stop i =
    let (rd1, e1, i1) = hash_round fuel b't' rest rd r i in
    let (rd2, e2, i2) = true-Leaves (read_datum (suc fuel)) (suc fuel) rest rd1 r stop i1 in
    Leaves-ReadsAs _ rd r (truth true) rest mtrue table refl (rd2, e1 ∙ e2, i2)
truth-ReadsAs fuel false rest rd r table stop i =
    let (rd1, e1, i1) = hash_round fuel b'f' rest rd r i in
    let (rd2, e2, i2) = false-Leaves (read_datum (suc fuel)) (suc fuel) rest rd1 r stop i1 in
    Leaves-ReadsAs _ rd r (truth false) rest mfalse table refl (rd2, e1 ∙ e2, i2)
