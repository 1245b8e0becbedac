-- ===== src/Reader/Atoms.antt =====
-- src/read.c, `read_atom`: numbers and symbols.
use mathlib.Core.List.{append-nil}
use native.Mathlib.Nat.{zero-add}
use minim.Base.{
  ℕ, ◌+◌, ◌-◌, ◌%◌, ◌^◌, ◌≤◌, ◌<◌, ◌≡◌, ◌≢◌, refl, ◌∙◌, true, false, inl, inr, Bool-cases, List, [],
  ◌∷◌, ◌++◌, ltb, ◌==◌, length, arith, ==_ne,
}
use minim.Object.{Mobj, fixnum, mfixnum, sign_extend}
use minim.Runtime.{Runtime}
use minim.Prims.{negated}
use minim.Writer.{to_base, write_signed}
use minim.Reader.{c_string, mreader_init_string, Reader, got, isdigit, is_delimiter}
use minim.ParseError.{token_too_long}
use minim.Reader.Tokens.{
  all_digits, some_digits, all_decimal_digits, decimal_loop, decimal_val, atom_of, read_atom,
  read_token_body, token_loop,
}
use minim.Reader.Input.{Input, Leaves, head?}
use minim.Reader.Lexing.{AllSymbol, token_loop-Leaves}
use minim.Reader.Digits.{
  Digits, to_base-Digits, length-Digits_pos, decimal_loop-Digits, all_digits-Digits,
}

abbrev pub NoNul : List ℕ → Type 0
NoNul [] = Unit {0}
NoNul (c ∷ cs) = (c ≢ 0) × NoNul cs

pub c_string-NoNul : (cs : List ℕ) → NoNul cs → c_string cs ≡ cs
unfolding c_string
c_string-NoNul [] h = refl
c_string-NoNul (c ∷ cs) (h, hs) = rw (==_ne c 0 h, c_string-NoNul cs hs) refl

-- A reader over a C string stands before all of its bytes.
pub init_string-Input : (s : List ℕ) → NoNul s → Input (mreader_init_string s) s
unfolding mreader_init_string
init_string-Input s h = record {
  ahead = (rw (c_string-NoNul s h) (omega arith), λ i k. rw (zero-add i) refl);
}

read_token_body_lem :
    (fuel first : ℕ) (rd : Reader) (r : Runtime)
    → read_token_body 256 fuel first rd r ≡ token_loop token_too_long 256 fuel (first ∷ []) rd r
unfolding read_token_body
read_token_body_lem fuel first rd r = refl

-- A token of at most 255 bytes is read to its end, and stands for what atom_of makes of it.
pub read_atom-Leaves :
    (fuel c : ℕ) (cs rest : List ℕ) (rd : Reader) (r t : Runtime) (v : Mobj)
    → AllSymbol cs
    → NoNul (c ∷ cs)
    → is_delimiter (head? rest) ≡ true
    → length cs < 255
    → length cs < fuel
    → ((rd' : Reader) → atom_of (c ∷ cs) rd' r ≡ got v rd' t)
    → Input rd (cs ++ rest)
    → Leaves (read_atom fuel c) rd r v rest t
unfolding read_atom
read_atom-Leaves fuel c cs rest rd r t v all clean stop room enough gives i =
    let (rd1, e1, i1) =
      token_loop-Leaves token_too_long 256 fuel (c ∷ []) cs rest rd r all stop (omega arith) enough
        i in
    (
      rd1,
      rw (read_token_body_lem fuel c rd r ∙ e1, read_atom)
          (rw (c_string-NoNul (c ∷ cs) clean) (gives rd1)),
      i1,
    )

digit_no_sign : (c : ℕ) → isdigit c ≡ true → ((c == b'+') ≡ false) × ((c == b'-') ≡ false)
unfolding isdigit
digit_no_sign c h = ground arith

unsigned_digits :
    (ds : List ℕ)
    → all_digits ds ≡ true
    → 0 < length ds
    → (all_decimal_digits ds ≡ true) × (decimal_val ds ≡ decimal_loop 0 ds)
unfolding all_decimal_digits decimal_val some_digits all_digits
unsigned_digits [] h k = elim k [ ]
unsigned_digits (c ∷ cs) h k = elim (Bool-cases (isdigit c)) [
  | inl digit ↦ let (plus, minus) = digit_no_sign c digit in rw (plus, minus) (h, refl)
  | inr other ↦ absurd (cc (rw other at h))
]

some_digits-all : (ds : List ℕ) → all_digits ds ≡ true → 0 < length ds → some_digits ds ≡ true
unfolding some_digits
some_digits-all [] h k = elim k [ ]
some_digits-all (c ∷ cs) h k = h

pub all_digits-back : {n : ℕ} (ds : List ℕ) → Digits 10 n ds → all_digits ds ≡ true
unfolding all_digits
all_digits-back ds d = rw append-nil at (all_digits-Digits [] d)

decimal_loop-back : (ds : List ℕ) (n : ℕ) → Digits 10 n ds → n < 2 ^ 64 → decimal_loop 0 ds ≡ n
unfolding decimal_loop
decimal_loop-back ds n d h = rw append-nil at (decimal_loop-Digits [] d h)

pub decimal_Digits : (n : ℕ) → n < 2 ^ 63 → Digits 10 n (to_base 10 64 n)
decimal_Digits n h = to_base-Digits 10 63 n (omega arith) (λ m. omega arith) h

atom_of_number :
    (ds : List ℕ) (k n : ℕ) (rd : Reader) (r : Runtime)
    → all_decimal_digits ds ≡ true
    → decimal_val ds ≡ k
    → k % 2 ^ 61 ≡ n
    → atom_of ds rd r ≡ got (fixnum n) rd r
unfolding atom_of mfixnum
atom_of_number ds k n rd r all val h = rw (all, val, h) refl

negative_number :
    (ds : List ℕ) (m : ℕ)
    → Digits 10 m ds
    → m < 2 ^ 63
    → (all_decimal_digits (b'-' ∷ ds) ≡ true) × (decimal_val (b'-' ∷ ds) ≡ (2 ^ 64 - m) % 2 ^ 64)
unfolding all_decimal_digits decimal_val negated
negative_number ds m d h = (
  some_digits-all ds (all_digits-back ds d) (length-Digits_pos d),
  rw (decimal_loop-back ds m d (omega arith)) refl,
)

-- A fixnum is read back from its digits.
pub atom_of-write_signed :
    (n : ℕ) (rd : Reader) (r : Runtime)
    → n < 2 ^ 61
    → atom_of (write_signed (sign_extend n)) rd r ≡ got (fixnum n) rd r
unfolding write_signed sign_extend
atom_of-write_signed n rd r h = elim (Bool-cases (ltb n (2 ^ 60))) [
  | inl small ↦
      let below : ltb n (2 ^ 63) ≡ true = ground arith in
      let d = decimal_Digits n (omega arith) in
      let (all, val) = unsigned_digits _ (all_digits-back _ d) (length-Digits_pos d) in
      rw (small, below)
        (atom_of_number _ n n rd r all (val ∙ decimal_loop-back _ n d (omega arith)) (omega arith))
  | inr large ↦
      let above : ltb (n + (2 ^ 64 - 2 ^ 61)) (2 ^ 63) ≡ false = ground arith in
      let m = 2 ^ 64 - (n + (2 ^ 64 - 2 ^ 61)) in
      let at_least : 2 ^ 60 ≤ n = ground arith in
      let (all, val) = negative_number _ m (decimal_Digits m (omega arith)) (omega arith) in
      rw (large, above) (atom_of_number _ ((2 ^ 64 - m) % 2 ^ 64) n rd r all val (omega arith))
]
