-- ===== src/Reader/Leaf.antt =====
-- src/read.c, `read_datum`: numbers, symbols, strings, characters and booleans as src/write.c writes
-- them.
use mathlib.Core.List.{append_assoc}
use mathlib.Core.Path.{subst}
use minim.Base.{
  ℕ, suc, ◌+◌, ◌-◌, ◌%◌, ◌^◌, ◌≤◌, ◌<◌, ◌≡◌, ◌≢◌, inl, inr, refl, ap, ◌∙◌, true, false, some,
  Option, List, [], ◌∷◌, ◌++◌, length, length-append, arith, Bool-cases, ltb,
}
use minim.Object.{Mobj, fixnum, typed, sign_extend, str, object_size, Object}
use minim.Runtime.{Runtime, ok}
use minim.Alloc.{mstring_from_bytes}
use minim.Alloc.Laws.{allocated, gc_alloc-Keeps}
use minim.Symbol.{mintern}
use minim.Symbol.Laws.{IsTable, mintern_lem}
use minim.Symbol.Search.{Named, named}
use minim.Writer.{write_signed, digit_char, escape_bytes, escape_byte}
use minim.Writer.Data.{number, text, identifier, Shows}
use minim.Reader.{Reader, Reading, got, is_delimiter, is_symbol_char, isspace, isdigit}
use minim.Reader.Tokens.{atom_of, all_decimal_digits, all_digits}
use minim.Reader.Literals.{read_string}
use minim.Reader.Datum.{read_datum, datum_step}
use minim.Reader.Input.{Input, Leaves, head?}
use minim.Reader.Strings.{AllAscii, string_loop-Leaves}
use minim.Reader.Digits.{
  Digits, one, more, decimal_digit, length-Digits, length-Digits_pos, AllSymbol-Digits,
}
use minim.Reader.Atoms.{
  NoNul, read_atom-Leaves, atom_of-write_signed, decimal_Digits, all_digits-back,
}
use minim.Reader.Heap.{allocated-IsTable, allocated-here}
use minim.Reader.Dispatch.{
  ReadsAs, Leaves-ReadsAs, read_datum_round, Token, datum_step-atom, symbol_char-other,
}

-- A token is read as what atom_of makes of it.
read_datum-Leaves :
    (fuel : ℕ) (s rest : List ℕ) (rd : Reader) (r t : Runtime) (v : Mobj) (k : Token s)
    → is_delimiter (head? rest) ≡ true
    → length s < fuel
    → ((rd' : Reader) → atom_of s rd' r ≡ got v rd' t)
    → Input rd (s ++ rest)
    → Leaves (read_datum (suc (suc fuel))) rd r v rest t
read_datum-Leaves fuel s rest rd r t v k stop enough gives i =
    let i' : Input rd (k.first ∷ (k.more ++ rest)) = rw k.split at i in
    let c = k.first in
    let (rd1, e1, i1) =
      read_datum_round fuel c (k.more ++ rest) rd r (symbol_char-other c k.symbol_chars.0).3 i' in
    let (rd2, e2, i2) =
      datum_step-atom (read_datum (suc fuel)) (suc fuel) c (k.more ++ rest) rd1 r k.symbol_chars.0
        k.no_hash k.no_quote i1 in
    let (rd3, e3, i3) =
      read_atom-Leaves (suc fuel) c k.more rest rd2 r t v k.symbol_chars.1 k.no_nul stop k.short
        (omega (arith, ap length k.split)) (rw k.split at gives) i2 in
    (rd3, e1 ∙ e2 ∙ e3, i3)

-- What a number is written as.
NoNul-append : (cs ds : List ℕ) → NoNul cs → NoNul ds → NoNul (cs ++ ds)
NoNul-append [] ds h k = k
NoNul-append (c ∷ cs) ds (h, hs) k = (h, NoNul-append cs ds hs k)

NoNul-Digits : {n : ℕ} {ds : List ℕ} → Digits 10 n ds → NoNul ds
NoNul-Digits (one {n} h e) = rw (e, decimal_digit n h) (omega arith, tt)
NoNul-Digits (more {n} {q} {ds} large e d s) =
    let last : digit_char (n % 10) ≢ 0 = omega (arith, decimal_digit (n % 10) (omega arith)) in
    rw s (NoNul-append ds _ (NoNul-Digits d) (last, tt))

digit_starts : (c : ℕ) → isdigit c ≡ true → (c ≢ b'#') × (c ≢ b'\'') × (c ≢ b'.')
unfolding isdigit
digit_starts c h = ground arith

first_digit : (c : ℕ) (cs : List ℕ) → all_digits (c ∷ cs) ≡ true → isdigit c ≡ true
unfolding all_digits
first_digit c cs h = elim (Bool-cases (isdigit c)) [
  | inl digit ↦ digit
  | inr other ↦ absurd (cc (rw other at h))
]

Digits-Token : {n : ℕ} (ds : List ℕ) → Digits 10 n ds → n < 2 ^ 63 → Token ds
Digits-Token [] d h = elim (length-Digits_pos d) [ ]
Digits-Token (c ∷ cs) d h =
    let (no_hash, no_quote, no_dot) =
      digit_starts c (first_digit c cs (all_digits-back (c ∷ cs) d)) in
    let few = length-Digits (omega arith) (λ m. omega arith) 62 d h in
    record {
      first = c;
      more = cs;
      split = refl;
      symbol_chars = AllSymbol-Digits (omega arith) (omega arith) d;
      no_nul = NoNul-Digits d;
      short = omega arith;
      no_hash = no_hash;
      no_quote = no_quote;
      no_dot = no_dot;
    }

minus-Token : {n : ℕ} (ds : List ℕ) → Digits 10 n ds → n < 2 ^ 63 → Token (b'-' ∷ ds)
unfolding is_symbol_char isspace
minus-Token ds d h =
    let few = length-Digits (omega arith) (λ m. omega arith) 62 d h in
    record {
      first = b'-';
      more = ds;
      split = refl;
      symbol_chars = (refl, AllSymbol-Digits (omega arith) (omega arith) d);
      no_nul = (omega arith, NoNul-Digits d);
      short = omega arith;
      no_hash = omega arith;
      no_quote = omega arith;
      no_dot = omega arith;
    }

pub write_signed-Token : (n : ℕ) → n < 2 ^ 61 → Token (write_signed (sign_extend n))
unfolding write_signed sign_extend
write_signed-Token n h = elim (Bool-cases (ltb n (2 ^ 60))) [
  | inl small ↦
      let below : ltb n (2 ^ 63) ≡ true = ground arith in
      rw (small, below) (Digits-Token _ (decimal_Digits n (omega arith)) (omega arith))
  | inr large ↦
      let above : ltb (n + (2 ^ 64 - 2 ^ 61)) (2 ^ 63) ≡ false = ground arith in
      let at_least : 2 ^ 60 ≤ n = ground arith in
      let m = 2 ^ 64 - (n + (2 ^ 64 - 2 ^ 61)) in
      rw (large, above) (minus-Token _ (decimal_Digits m (omega arith)) (omega arith))
]

pub number-ReadsAs :
    (fuel n : ℕ) (rest : List ℕ) (rd : Reader) (r : Runtime)
    → IsTable r
    → n < 2 ^ 61
    → is_delimiter (head? rest) ≡ true
    → length (write_signed (sign_extend n)) < fuel
    → Input rd (write_signed (sign_extend n) ++ rest)
    → ReadsAs (read_datum (suc (suc fuel))) rd r (number n) rest
number-ReadsAs fuel n rest rd r table h stop enough i =
    Leaves-ReadsAs _ rd r (number n) rest (fixnum n) table refl (
      read_datum-Leaves fuel _ rest rd r r (fixnum n) (write_signed-Token n h) stop enough
        (λ rd'. atom_of-write_signed n rd' r h) i)

atom_of-symbol :
    (s : List ℕ) (rd : Reader) (r t : Runtime) (v : Mobj)
    → all_decimal_digits s ≡ false
    → mintern s r ≡ ok v t
    → atom_of s rd r ≡ got v rd t
unfolding atom_of
atom_of-symbol s rd r t v h e = rw h (rw e refl)

identifier-Shows :
    (base : ℕ → Option Object) (s : List ℕ) (t : Runtime) (v : Mobj)
    → Named t s v
    → Shows base t (identifier s) v
identifier-Shows base s t v (named {p} e) = (p, refl, e)

pub identifier-ReadsAs :
    (fuel : ℕ) (s rest : List ℕ) (rd : Reader) (r : Runtime)
    → IsTable r
    → Token s
    → all_decimal_digits s ≡ false
    → is_delimiter (head? rest) ≡ true
    → length s < fuel
    → Input rd (s ++ rest)
    → ReadsAs (read_datum (suc (suc fuel))) rd r (identifier s) rest
identifier-ReadsAs fuel s rest rd r table k no_number stop enough i =
    let (v, t, made, here, table', kept, again, stable) = mintern_lem s table in
    let (rd', e, i') =
      read_datum-Leaves fuel s rest rd r t v k stop enough
        (λ rd'. atom_of-symbol s rd' r t v no_number made) i in
    record {
      value = v;
      reader = rd';
      after = t;
      returns = e;
      input = i';
      table = table';
      kept = kept;
      shows = identifier-Shows r.heap s t v here;
    }

pub read_string-text :
    (read : Reading Mobj) (fuel : ℕ) → datum_step read fuel (some b'"') ≡ read_string fuel
unfolding datum_step
read_string-text read fuel = refl

read_string-Leaves :
    (fuel : ℕ) (bs rest : List ℕ) (rd : Reader) (r t : Runtime) (v : Mobj)
    → AllAscii bs
    → length bs < 256
    → length bs < fuel
    → mstring_from_bytes bs r ≡ ok v t
    → Input rd (escape_bytes bs ++ b'"' ∷ rest)
    → Leaves (read_string fuel) rd r v rest t
unfolding read_string
read_string-Leaves fuel bs rest rd r t v ascii room enough made i =
    string_loop-Leaves fuel [] bs rest rd r t v ascii (omega arith) enough made i

length-escape_byte : (c : ℕ) → 0 < length (escape_byte c)
unfolding escape_byte
length-escape_byte c = ground arith

pub length-escape_bytes : (bs : List ℕ) → length bs ≤ length (escape_bytes bs)
unfolding escape_bytes
length-escape_bytes [] = omega arith
length-escape_bytes (c ∷ cs) = omega (
  arith,
  length-append (escape_byte c) (escape_bytes cs),
  length-escape_byte c,
  length-escape_bytes cs,
)

str_size : (bs : List ℕ) → length bs < 256 → 0 < object_size (str bs)
unfolding object_size
str_size bs h = omega arith

mstring_from_bytes_lem :
    (bs : List ℕ) (r : Runtime) → mstring_from_bytes bs r ≡ ok (typed r.ap) (allocated (str bs) r)
unfolding mstring_from_bytes
mstring_from_bytes_lem bs r = refl

abbrev pub string_text : List ℕ → List ℕ
string_text bs = b'"' ∷ (escape_bytes bs ++ b'"' ∷ [])

-- A string is read back, whatever follows it.
pub text-ReadsAs :
    (fuel : ℕ) (bs rest : List ℕ) (rd : Reader) (r : Runtime)
    → IsTable r
    → AllAscii bs
    → length bs < 256
    → length (string_text bs) < fuel
    → Input rd (string_text bs ++ rest)
    → ReadsAs (read_datum (suc (suc fuel))) rd r (text bs) rest
unfolding isspace
text-ReadsAs fuel bs rest rd r table ascii room enough i =
    let (rd1, e1, i1) = read_datum_round fuel b'"' _ rd r refl i in
    let joined = append_assoc (escape_bytes bs) (b'"' ∷ []) rest in
    let i1' = subst (λ (l : List ℕ). Input rd1 l) joined i1 in
    let (rd2, e2, i2) =
      read_string-Leaves (suc fuel) bs rest rd1 r _ _ ascii room
        (omega (arith, length-escape_bytes bs, length-append (escape_bytes bs) (b'"' ∷ [])))
        (mstring_from_bytes_lem bs r) i1' in
    record {
      value = typed r.ap;
      reader = rd2;
      after = allocated (str bs) r;
      returns = e1 ∙ (rw (read_string-text (read_datum (suc fuel)) (suc fuel)) e2);
      input = i2;
      table = allocated-IsTable r table (str bs) (str_size bs room);
      kept = gc_alloc-Keeps (str bs) table.fresh;
      shows = (r.ap, refl, allocated-here r table (str bs) (str_size bs room));
    }
