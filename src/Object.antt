-- ===== src/Object.antt =====
-- include/minim.h: Scheme values and the objects on the heap. A value is a tagged 64-bit word in
-- the program; here each primary tag is a constructor, and Word.antt gives the words.
use minim.Base.{
  ◌≡◌, ◌≢◌, Bool-cases, inl, inr, arith, ℕ, ◌+◌, ◌-◌, ◌*◌, ◌/◌, ◌%◌, ◌^◌, Bool, true, false, List,
  ltb, ◌==◌, if◌then◌else◌, length,
}

-- A byte address in the heap.
abbrev pub Addr : Type 0
Addr = ℕ

-- `fixnum` holds the 61 bits above the tag, `char` the code point, a pointer its untagged address.
pub data Mobj : Type 0 where
  fixnum : ℕ → Mobj
  mfalse mtrue mnull mvoid meof : Mobj
  char : ℕ → Mobj
  pair flonum symbol closure typed : Addr → Mobj

-- The secondary tags whose payload is a row of values.
pub data Sec : Type 0 where
  vector kont env prim : Sec

-- What stands at an address: `str` is a typed object with the secondary tag MSEC_STRING, `double`
-- holds the 64 bits of a double, and `name` the bytes behind a symbol's name pointer.
pub data Object : Type 0 where
  cons_cell : Mobj → Mobj → Object
  double : ℕ → Object
  name : List ℕ → Object
  lambda : Mobj → Mobj → Mobj → Mobj → Object
  slots : Sec → List Mobj → Object
  str : List ℕ → Object

abbrev pub same_sec : Sec → Sec → Bool
same_sec vector vector = true
same_sec kont kont = true
same_sec env env = true
same_sec prim prim = true
same_sec _ _ = false

-- The word equality `==` of C, on values.
infix 50 ◌=?◌
unfoldable pub ◌=?◌ : Mobj → Mobj → Bool
fixnum a =? fixnum b = a == b
mfalse =? mfalse = true
mtrue =? mtrue = true
mnull =? mnull = true
mvoid =? mvoid = true
meof =? meof = true
char a =? char b = a == b
pair a =? pair b = a == b
flonum a =? flonum b = a == b
symbol a =? symbol b = a == b
closure a =? closure b = a == b
typed a =? typed b = a == b
_ =? _ = false

abbrev pub mnullp : Mobj → Bool
mnullp mnull = true
mnullp _ = false

abbrev pub mfalsep : Mobj → Bool
mfalsep mfalse = true
mfalsep _ = false

abbrev pub mpairp : Mobj → Bool
mpairp (pair a) = true
mpairp _ = false

abbrev pub msymbolp : Mobj → Bool
msymbolp (symbol a) = true
msymbolp _ = false

abbrev pub mfixnump : Mobj → Bool
mfixnump (fixnum n) = true
mfixnump _ = false

abbrev pub mflonump : Mobj → Bool
mflonump (flonum a) = true
mflonump _ = false

abbrev pub mclosurep : Mobj → Bool
mclosurep (closure a) = true
mclosurep _ = false

abbrev pub mcharp : Mobj → Bool
mcharp (char c) = true
mcharp _ = false

abbrev pub mbooleanp : Mobj → Bool
mbooleanp mfalse = true
mbooleanp mtrue = true
mbooleanp _ = false

abbrev pub mimmediatep : Mobj → Bool
mimmediatep mfalse = true
mimmediatep mtrue = true
mimmediatep mnull = true
mimmediatep mvoid = true
mimmediatep meof = true
mimmediatep (char c) = true
mimmediatep _ = false

-- An `intptr_t` is its 64-bit pattern. The shift by 3 drops the upper bits.
unfoldable pub mfixnum : ℕ → Mobj
mfixnum n = fixnum (n % 2 ^ 61)

-- The arithmetic shift back: the sign fills the upper three bits.
unfoldable pub sign_extend : ℕ → ℕ
sign_extend n = if ltb n (2 ^ 60) then n else n + (2 ^ 64 - 2 ^ 61)

pub =?→eq : (v w : Mobj) → (v =? w) ≡ true → v ≡ w
unfolding ◌=?◌
=?→eq v w h = ground arith

pub =?_refl : (v : Mobj) → (v =? v) ≡ true
unfolding ◌=?◌
=?_refl v = ground arith

pub =?_ne : (v w : Mobj) → v ≢ w → (v =? w) ≡ false
=?_ne v w h = elim (Bool-cases (v =? w)) [
  | inl same ↦ absurd (h (=?→eq v w same))
  | inr differ ↦ differ
]

-- MINIM_ALIGN: up to the next multiple of 16.
unfoldable pub align : ℕ → ℕ
align n = (n + 15) % 2 ^ 64 / 16 * 16

unfoldable pub vector_size : ℕ → ℕ
unfolding align
vector_size n = align ((8 + 8 * n) % 2 ^ 64)

unfoldable pub string_size : ℕ → ℕ
unfolding align
string_size n = align ((8 + n) % 2 ^ 64)

-- gc.c, `object_size`: the bytes that an object takes.
unfoldable pub object_size : Object → ℕ
unfolding vector_size string_size
object_size (cons_cell a d) = 16
object_size (double b) = 16
object_size (name s) = 16
object_size (lambda p b e n) = 32
object_size (slots sec xs) = vector_size (length xs)
object_size (str bs) = string_size (length bs)
