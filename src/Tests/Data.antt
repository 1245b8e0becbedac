-- ===== src/Tests/Data.antt =====
-- The theorems on words, symbols and equality at concrete inputs.
use minim.Prims.Table.{minit, registrations}
use minim.Prims.Registered.{SetUp}
use minim.Prims.Start.{onto, minit-SetUp}
use minim.Base.{
  ℕ, zero, suc, ◌*◌, ◌+◌, ◌-◌, ◌%◌, ◌^◌, ◌≤◌, ◌<◌, ◌≡◌, ◌↔◌, ◌⊎◌, refl, true, [], ◌∷◌, List, arith,
  get_or, codes,
}
use minim.Object.{
  Mobj, fixnum, char, pair, mfixnum, sign_extend, vector_size, string_size, ◌=?◌, mfixnump, mpairp,
  mflonump, msymbolp, mclosurep, mimmediatep, mcharp, mnullp, mfalsep,
}
use minim.Runtime.{Runtime, Run, ok}
use minim.Runtime.Laws.{IsFresh, Keeps}
use minim.Word.{
  encode, IsMobj, word_fixnump, word_pairp, word_flonump, word_symbolp, word_closurep,
  word_immediatep, word_charp, word_nullp, word_falsep, word_fixnum, word_fixnum_val,
}
use minim.Word.Laws.{
  encode-injective, predicates-encode, FitsFixnum, word_fixnum_val-word_fixnum, fixnum-word,
  size_fits,
}
use minim.Symbol.{mintern, symbol_init}
use minim.Symbol.Init.{symbol_init-IsTable}
use minim.Eval.Rounds.{IsDistinct}
use minim.Eval.Start.{symbol_init-IsDistinct}
use minim.Symbol.Laws.{IsTable, Interned, mintern_lem, mintern-eq_iff}
use minim.Symbol.Search.{Named, AllNamed}
use minim.Equal.{mequal, mhash}
use minim.Equal.Same.{Same, mequal-Same}
use minim.Equal.Hash.{mhash-mequal}
use minim.Tests.{blank, ieee_eq, twins}

encode-injective_example : fixnum 3 ≡ fixnum (1 + 2)
encode-injective_example =
    encode-injective (fixnum 3) (fixnum (1 + 2)) (omega arith) (omega arith) refl

predicates-encode_example :
    (word_fixnump (encode (pair 48)) ≡ mfixnump (pair 48))
    × (word_pairp (encode (pair 48)) ≡ mpairp (pair 48))
    × (word_flonump (encode (pair 48)) ≡ mflonump (pair 48))
    × (word_symbolp (encode (pair 48)) ≡ msymbolp (pair 48))
    × (word_closurep (encode (pair 48)) ≡ mclosurep (pair 48))
    × (word_immediatep (encode (pair 48)) ≡ mimmediatep (pair 48))
    × (word_charp (encode (pair 48)) ≡ mcharp (pair 48))
    × (word_nullp (encode (pair 48)) ≡ mnullp (pair 48))
    × (word_falsep (encode (pair 48)) ≡ mfalsep (pair 48))
predicates-encode_example = predicates-encode (pair 48) (omega arith)

-- The largest fixnum and one.
word_fixnum_val-word_fixnum_example :
    (word_fixnum_val (word_fixnum (2 ^ 60)) ≡ 2 ^ 60) ↔ FitsFixnum (2 ^ 60)
word_fixnum_val-word_fixnum_example = word_fixnum_val-word_fixnum (2 ^ 60) (omega arith)

-- -1.
fixnum-word_example :
    (encode (mfixnum (2 ^ 64 - 1)) ≡ word_fixnum (2 ^ 64 - 1))
    × IsMobj (mfixnum (2 ^ 64 - 1))
    × (word_fixnum_val (word_fixnum (2 ^ 64 - 1)) ≡ sign_extend ((2 ^ 64 - 1) % 2 ^ 61))
fixnum-word_example = fixnum-word (2 ^ 64 - 1) (omega arith)

size_fits_example :
    ((8 + 8 * 3 ≤ vector_size 3) × (vector_size 3 < 2 ^ 64) × (vector_size 3 % 16 ≡ 0))
    × (8 + 3 ≤ string_size 3)
    × (string_size 3 < 2 ^ 64)
    × (string_size 3 % 16 ≡ 0)
size_fits_example = size_fits 3 (omega arith)

-- A table of two empty buckets.
abbrev tabled : Runtime
tabled = record blank { intern_table = [] ∷ [] ∷ [] }

tabled-IsTable : IsTable tabled
tabled-IsTable = record {
  fresh = record { unused = λ p h. refl };
  size = omega arith;
  buckets = empty;
}
  where
    empty : (i : ℕ) → AllNamed tabled (get_or tabled.intern_table i [])
    empty zero = tt
    empty (suc zero) = tt
    empty (suc (suc i)) = tt

mintern_lem_example :
    (v : Mobj) × (t : Runtime) × (mintern (codes "x") tabled ≡ ok v t)
    × Named t (codes "x") v
    × IsTable t
    × Keeps tabled t
    × Interned t (codes "x") v
    × ((u : List ℕ) (w : Mobj) → Interned tabled u w → Interned t u w)
mintern_lem_example = mintern_lem (codes "x") tabled-IsTable

ieee_eq_bits :
    (x y : ℕ) → ieee_eq x y ≡ true → (x ≡ y) ⊎ ((ieee_eq x 0 ≡ true) × (ieee_eq y 0 ≡ true))
unfolding ieee_eq
ieee_eq_bits x y h = ground arith

twins_equal : mequal ieee_eq 3 (pair 32) (pair 48) twins ≡ ok true twins
unfolding mequal ◌=?◌
twins_equal = refl

mequal-Same_example : Same ieee_eq twins (pair 32) (pair 48) × (twins ≡ twins)
mequal-Same_example = mequal-Same ieee_eq 3 (pair 32) (pair 48) twins twins_equal

mhash-mequal_example : mhash ieee_eq 3 (pair 32) twins ≡ mhash ieee_eq 3 (pair 48) twins
mhash-mequal_example = mhash-mequal ieee_eq ieee_eq_bits 3 3 (pair 32) (pair 48) twins twins_equal

-- The state and the symbol that interning gives.
abbrev after : Run Mobj → Runtime
after (ok v r) = r
after _ = tabled

abbrev given : Run Mobj → Mobj
given (ok v r) = v
given _ = char 0

-- The state after "x" is interned, and the two symbols.
abbrev with_x : Runtime
with_x = after (mintern (codes "x") tabled)

abbrev x_given : Mobj
x_given = given (mintern (codes "x") tabled)

abbrev y_given : Mobj
y_given = given (mintern (codes "y") with_x)

interned :
    (s : List ℕ) {r : Runtime}
    → IsTable r
    → (mintern s r ≡ ok (given (mintern s r)) (after (mintern s r))) × IsTable (after (mintern s r))
interned s table =
    let (v, t, e, has_name, table', kept, found, stable) = mintern_lem s table in
    rw e (refl, table')

mintern-eq_iff_example : (x_given ≡ y_given) ↔ (codes "x" ≡ codes "y")
mintern-eq_iff_example =
    mintern-eq_iff (codes "x") (codes "y") tabled-IsTable (interned (codes "x") tabled-IsTable).0
      (interned (codes "y") (interned (codes "x") tabled-IsTable).1).0

blank-IsFresh : IsFresh blank
blank-IsFresh = record { unused = λ p h. refl }

symbol_init-IsTable_example :
    (s : Runtime) × (symbol_init blank ≡ ok tt s)
    × IsTable s
    × Keeps blank s
    × Interned s (codes "begin") s.begin_sym
    × Interned s (codes "define") s.define_sym
    × Interned s (codes "if") s.if_sym
    × Interned s (codes "lambda") s.lambda_sym
    × Interned s (codes "let") s.let_sym
    × Interned s (codes "quote") s.quote_sym
    × Interned s (codes "set!") s.set_sym
symbol_init-IsTable_example = symbol_init-IsTable blank blank-IsFresh

symbol_init-IsDistinct_example :
    (s : Runtime) × (symbol_init blank ≡ ok tt s) × IsTable s × IsDistinct s
symbol_init-IsDistinct_example = symbol_init-IsDistinct blank blank-IsFresh

minit-SetUp_example :
    (s : Runtime) × (xs : List (Mobj × Mobj)) × (minit blank ≡ ok tt s)
    × SetUp s xs (onto registrations [])
minit-SetUp_example = minit-SetUp blank blank-IsFresh
