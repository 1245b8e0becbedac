-- ===== src/Word.antt =====
-- include/minim.h: the tagged words. `encode` is the word of a value; the predicates test words.
pub mod Laws
use minim.Base.{
  ℕ, ◌+◌, ◌-◌, ◌*◌, ◌/◌, ◌%◌, ◌^◌, ◌<◌, ◌≡◌, Bool, Option, none, some, ltb, ◌==◌, if◌then◌else◌,
}
use minim.Object.{
  Mobj, fixnum, mfalse, mtrue, mnull, mvoid, meof, char, pair, flonum, symbol, closure, typed,
}

-- A tag is or-ed into bits that are zero, so `|` is `+`; `v & 7` is `v % 8`.
unfoldable pub encode : Mobj → ℕ
encode (fixnum n) = n * 8
encode mfalse = 0x0 * 8 + 6
encode mtrue = 0x1 * 8 + 6
encode mnull = 0x4 * 8 + 6
encode mvoid = 0x5 * 8 + 6
encode meof = 0x6 * 8 + 6
encode (char c) = c * 256 + 0x16
encode (pair a) = a + 1
encode (flonum a) = a + 2
encode (symbol a) = a + 3
encode (closure a) = a + 5
encode (typed a) = a + 7

-- Values that the program can hold: 61-bit fixnums, 32-bit code points, 16-byte aligned addresses.
abbrev pub IsMobj : Mobj → Type 0
IsMobj (fixnum n) = n < 2 ^ 61
IsMobj (char c) = c < 2 ^ 32
IsMobj (pair a) = (a < 2 ^ 64) × (a % 16 ≡ 0)
IsMobj (flonum a) = (a < 2 ^ 64) × (a % 16 ≡ 0)
IsMobj (symbol a) = (a < 2 ^ 64) × (a % 16 ≡ 0)
IsMobj (closure a) = (a < 2 ^ 64) × (a % 16 ≡ 0)
IsMobj (typed a) = (a < 2 ^ 64) × (a % 16 ≡ 0)
IsMobj _ = Unit

unfoldable pub word_tag : ℕ → ℕ
word_tag v = v % 8

unfoldable pub word_fixnump : ℕ → Bool
unfolding word_tag
word_fixnump v = word_tag v == 0

unfoldable pub word_pairp : ℕ → Bool
unfolding word_tag
word_pairp v = word_tag v == 1

unfoldable pub word_flonump : ℕ → Bool
unfolding word_tag
word_flonump v = word_tag v == 2

unfoldable pub word_symbolp : ℕ → Bool
unfolding word_tag
word_symbolp v = word_tag v == 3

unfoldable pub word_closurep : ℕ → Bool
unfolding word_tag
word_closurep v = word_tag v == 5

unfoldable pub word_immediatep : ℕ → Bool
unfolding word_tag
word_immediatep v = word_tag v == 6

unfoldable pub word_charp : ℕ → Bool
word_charp v = v % 256 == 0x16

unfoldable pub word_nullp : ℕ → Bool
word_nullp v = v == 0x26

unfoldable pub word_falsep : ℕ → Bool
word_falsep v = v == 0x06

-- Mfixnum: `(uintptr_t)n << 3`.
unfoldable pub word_fixnum : ℕ → ℕ
word_fixnum n = n * 8 % 2 ^ 64

-- Mfixnum_val: `(mint)v >> 3`, an arithmetic shift.
unfoldable pub word_fixnum_val : ℕ → ℕ
word_fixnum_val v = if ltb v (2 ^ 63) then v / 8 else v / 8 + (2 ^ 64 - 2 ^ 61)

-- Mchar and Mchar_val; `mchar` has 32 bits.
unfoldable pub word_char : ℕ → ℕ
word_char c = c * 256 % 2 ^ 64 + 0x16

unfoldable pub word_char_val : ℕ → ℕ
word_char_val v = v / 256 % 2 ^ 32

-- The value of a word, by the tag dispatch that the program's switches make.
pub decode : ℕ → Option Mobj
unfolding word_tag word_charp
decode v =
    if word_tag v == 0
    then some (fixnum (v / 8))
    else if word_tag v == 1
    then some (pair (v - 1))
    else if word_tag v == 2
    then some (flonum (v - 2))
    else if word_tag v == 3
    then some (symbol (v - 3))
    else if word_tag v == 5
    then some (closure (v - 5))
    else if word_tag v == 7
    then some (typed (v - 7))
    else if word_charp v
    then some (char (v / 256))
    else if v == 0x06
    then some mfalse
    else if v == 0x0E
    then some mtrue
    else if v == 0x26
    then some mnull
    else if v == 0x2E
    then some mvoid
    else if v == 0x36
    then some meof
    else none
