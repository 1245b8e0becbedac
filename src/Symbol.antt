-- ===== src/Symbol.antt =====
-- src/symbol.c: the intern table, a chained hash map from names to symbols outside the heap. A
-- bucket is the list of its symbols, the newest first; a name is the list of its bytes.
pub mod Search
pub mod Laws
pub mod Init
use Prim.Native.Nat.{bit_xor}
use minim.Base.{
  ℕ, suc, ◌*◌, ◌%◌, ◌^◌, Bool, true, false, ◌&&◌, Option, none, some, List, [], ◌∷◌, ◌==◌,
  if◌then◌else◌, length, codes, get_or, set, replicate,
}
use minim.Object.{Mobj, symbol, name}
use minim.Runtime.{Runtime, Cmd, ok, pure, get, ◌>>=◌, ◌>>◌, msymbol_name}
use minim.Alloc.{gc_alloc}

-- `strcmp(a, b) == 0`.
unfoldable pub bytes_eq : List ℕ → List ℕ → Bool
bytes_eq [] [] = true
bytes_eq (a ∷ xs) (b ∷ ys) = (a == b) && bytes_eq xs ys
bytes_eq _ _ = false

-- FNV-1a over the bytes, in 64 bits.
unfoldable pub hash_loop : ℕ → List ℕ → ℕ
hash_loop h [] = h
hash_loop h (c ∷ s) = hash_loop (bit_xor h c * 1099511628211 % 2 ^ 64) s

unfoldable pub hash_name : List ℕ → ℕ
unfolding hash_loop
hash_name s = hash_loop 14695981039346656037 s

-- The search of a bucket.
unfoldable pub find_symbol : List ℕ → List Mobj → Cmd (Option Mobj)
unfolding msymbol_name bytes_eq
find_symbol s [] = pure none
find_symbol s (b ∷ bs) =
    let rest = find_symbol s bs in
    msymbol_name b >>= λ bname. if bytes_eq bname s then pure (some b) else rest

unfoldable pub bucket_of : List ℕ → Runtime → ℕ
unfolding hash_name
bucket_of s r = hash_name s % length r.intern_table

-- A new symbol at the front of its bucket.
unfoldable pub insert_symbol : ℕ → Mobj → Cmd (Unit {0})
insert_symbol idx sym r = ok tt (record r {
  intern_table = set r.intern_table idx (sym ∷ get_or r.intern_table idx []);
  intern_table_n = suc r.intern_table_n;
})

unfoldable pub mintern : List ℕ → Cmd Mobj
unfolding bucket_of find_symbol gc_alloc insert_symbol
mintern s = do
  r ← get
  let idx = bucket_of s r
  found ← find_symbol s (get_or r.intern_table idx [])
  elim found [
    | some sym ↦ pure sym
    | none ↦ do p ← gc_alloc (name s); insert_symbol idx (symbol p); pure (symbol p)
  ]

abbrev pub intern_table_init_size : ℕ
intern_table_init_size = 64

abbrev set_specials : (b d i l t q s : Mobj) → Cmd (Unit {0})
set_specials b d i l t q s r = ok tt (record r {
  begin_sym = b;
  define_sym = d;
  if_sym = i;
  lambda_sym = l;
  let_sym = t;
  quote_sym = q;
  set_sym = s;
})

-- The table is empty, and then holds the names of the special forms.
unfoldable pub symbol_init : Cmd (Unit {0})
symbol_init r0 =
    fill (record r0 { intern_table = replicate intern_table_init_size []; intern_table_n = 0 })
  where
    fill : Cmd (Unit {0})
    fill = do
      b ← mintern (codes "begin")
      d ← mintern (codes "define")
      i ← mintern (codes "if")
      l ← mintern (codes "lambda")
      t ← mintern (codes "let")
      q ← mintern (codes "quote")
      s ← mintern (codes "set!")
      set_specials b d i l t q s
