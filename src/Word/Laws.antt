-- ===== src/Word/Laws.antt =====
-- include/minim.h: the tagged words against the values that they stand for, and the sizes.
use minim.Base.{◌↔◌, ℕ, ◌+◌, ◌-◌, ◌*◌, ◌%◌, ◌^◌, ◌≤◌, ◌<◌, ◌≡◌, ◌⊎◌, refl, some, arith}
use minim.Object.{
  Mobj, fixnum, mfalse, mtrue, mnull, mvoid, meof, char, pair, flonum, symbol, closure, typed,
  mfixnum, mfixnump, mpairp, mflonump, msymbolp, mclosurep, mimmediatep, mcharp, mnullp, mfalsep,
  sign_extend, align, vector_size, string_size,
}
use minim.Word.{
  encode, decode, IsMobj, word_fixnump, word_pairp, word_flonump, word_symbolp, word_closurep,
  word_immediatep, word_charp, word_nullp, word_falsep, word_fixnum, word_fixnum_val, word_char,
  word_char_val,
}

decode-encode : (v : Mobj) → IsMobj v → decode (encode v) ≡ some v
unfolding decode encode
decode-encode (fixnum n) h = ground arith
decode-encode mfalse h = refl
decode-encode mtrue h = refl
decode-encode mnull h = refl
decode-encode mvoid h = refl
decode-encode meof h = refl
decode-encode (char c) h = ground arith
decode-encode (pair a) h = ground arith
decode-encode (flonum a) h = ground arith
decode-encode (symbol a) h = ground arith
decode-encode (closure a) h = ground arith
decode-encode (typed a) h = ground arith

-- Two values that the program can hold (61-bit fixnums, 32-bit code points, aligned addresses) with
-- one word are one value.
pub encode-injective : (v w : Mobj) → IsMobj v → IsMobj w → encode v ≡ encode w → v ≡ w
encode-injective v w hv hw e = cc (decode-encode v hv, decode-encode w hw)

-- On the word of a value that the program can hold, each type test of the header answers as the
-- value's constructor says: fixnum, pair, flonum, symbol, closure, immediate, character, empty list
-- and false.
pub predicates-encode :
    (v : Mobj)
    → IsMobj v
    → (word_fixnump (encode v) ≡ mfixnump v)
      × (word_pairp (encode v) ≡ mpairp v)
      × (word_flonump (encode v) ≡ mflonump v)
      × (word_symbolp (encode v) ≡ msymbolp v)
      × (word_closurep (encode v) ≡ mclosurep v)
      × (word_immediatep (encode v) ≡ mimmediatep v)
      × (word_charp (encode v) ≡ mcharp v)
      × (word_nullp (encode v) ≡ mnullp v)
      × (word_falsep (encode v) ≡ mfalsep v)
unfolding encode word_fixnump word_pairp word_flonump word_symbolp word_closurep word_immediatep
    word_charp word_nullp word_falsep
predicates-encode (fixnum n) h = ground arith
predicates-encode mfalse h = (refl, refl, refl, refl, refl, refl, refl, refl, refl)
predicates-encode mtrue h = (refl, refl, refl, refl, refl, refl, refl, refl, refl)
predicates-encode mnull h = (refl, refl, refl, refl, refl, refl, refl, refl, refl)
predicates-encode mvoid h = (refl, refl, refl, refl, refl, refl, refl, refl, refl)
predicates-encode meof h = (refl, refl, refl, refl, refl, refl, refl, refl, refl)
predicates-encode (char c) h = ground arith
predicates-encode (pair a) h = ground arith
predicates-encode (flonum a) h = ground arith
predicates-encode (symbol a) h = ground arith
predicates-encode (closure a) h = ground arith
predicates-encode (typed a) h = ground arith

-- A 64-bit pattern whose integer lies between -2^60 and 2^60 - 1.
abbrev pub FitsFixnum : ℕ → Type 0
FitsFixnum n = (n < 2 ^ 60) ⊎ ((2 ^ 64 - 2 ^ 60 ≤ n) × (n < 2 ^ 64))

-- Of a 64-bit integer, Mfixnum_val gives back what Mfixnum was given exactly when the integer lies
-- between -2^60 and 2^60 - 1.
pub word_fixnum_val-word_fixnum :
    (n : ℕ) → n < 2 ^ 64 → (word_fixnum_val (word_fixnum n) ≡ n) ↔ FitsFixnum n
unfolding word_fixnum_val word_fixnum
word_fixnum_val-word_fixnum n h = (ground arith, ground arith)

-- For each 64-bit integer, `mfixnum` gives a value that the program can hold, its word is the one
-- that Mfixnum makes, and Mfixnum_val of that word extends the sign of the low 61 bits.
pub fixnum-word :
    (n : ℕ)
    → n < 2 ^ 64
    → (encode (mfixnum n) ≡ word_fixnum n)
      × IsMobj (mfixnum n)
      × (word_fixnum_val (word_fixnum n) ≡ sign_extend (n % 2 ^ 61))
unfolding word_fixnum_val word_fixnum encode mfixnum sign_extend
fixnum-word n h = (omega arith, omega arith, ground arith)

pub char-word :
    (c : ℕ) → c < 2 ^ 32 → (word_char c ≡ encode (char c)) × (word_char_val (word_char c) ≡ c)
unfolding word_char word_char_val encode
char-word c h = (omega arith, omega arith)

pub align_bounds :
    (n : ℕ)
    → n + 15 < 2 ^ 64
    → (align n % 16 ≡ 0) × (n ≤ align n) × (align n < n + 16) × (align (align n) ≡ align n)
unfolding align
align_bounds n h = omega arith

-- Up to 2^60 - 1 slots or bytes, the size of a vector or a string does not overflow 64 bits, is a
-- multiple of 16 and has room for the header and the payload.
pub size_fits :
    (n : ℕ)
    → n < 2 ^ 60
    → ((8 + 8 * n ≤ vector_size n) × (vector_size n < 2 ^ 64) × (vector_size n % 16 ≡ 0))
      × (8 + n ≤ string_size n)
      × (string_size n < 2 ^ 64)
      × (string_size n % 16 ≡ 0)
unfolding vector_size string_size
size_fits n h = omega arith
