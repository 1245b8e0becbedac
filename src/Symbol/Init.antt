-- ===== src/Symbol/Init.antt =====
-- src/symbol.c, `symbol_init`: the table that the program starts with.
use minim.Base.{ℕ, zero, suc, ◌≡◌, refl, List, [], arith, codes, get_or, replicate}
use minim.Object.{Mobj}
use minim.Runtime.{Runtime, ok}
use minim.Runtime.Laws.{IsFresh, Keeps, Keeps-refl}
use minim.Symbol.{symbol_init, bucket_of, intern_table_init_size}
use minim.Symbol.Laws.{IsTable, Interned, mintern_lem}
use minim.Symbol.Search.{AllNamed-Keeps, find_symbol-Keeps}

empty_bucket : (n i : ℕ) → get_or {A = List Mobj} (replicate n []) i [] ≡ []
empty_bucket zero i = refl
empty_bucket (suc n) zero = refl
empty_bucket (suc n) (suc i) = empty_bucket n i

-- The table with no symbol in its buckets.
abbrev pub emptied : Runtime → Runtime
emptied r = record r { intern_table = replicate intern_table_init_size []; intern_table_n = 0 }

pub emptied-IsTable : (r : Runtime) → IsFresh r → IsTable (emptied r)
emptied-IsTable r fresh = record {
  fresh = record { unused = fresh.unused };
  size = omega arith;
  buckets = λ i. rw (empty_bucket 64 i) tt;
}

module _ {r : Runtime} (table : IsTable r) (b d i l t q s : Mobj) where
  -- The state with its special symbols.
  abbrev special : Runtime
  special = record r {
    begin_sym = b;
    define_sym = d;
    if_sym = i;
    lambda_sym = l;
    let_sym = t;
    quote_sym = q;
    set_sym = s;
  }

  special-IsTable : IsTable special
  special-IsTable = record {
    fresh = record { unused = table.fresh.unused };
    size = table.size;
    buckets = λ k. AllNamed-Keeps r special _ (Keeps-refl r) (table.buckets k);
  }

  special-Interned : (u : List ℕ) (w : Mobj) → Interned r u w → Interned special u w
  unfolding bucket_of
  special-Interned u w h = find_symbol-Keeps u _ r special (Keeps-refl r) (table.buckets _) h

-- In a fresh heap `symbol_init` succeeds: the table is well formed, every object is kept, and each special
-- symbol is what the table gives for the name of its form.
pub symbol_init-IsTable :
    (r : Runtime)
    → IsFresh r
    → (s : Runtime) × (symbol_init r ≡ ok tt s)
      × IsTable s
      × Keeps r s
      × Interned s (codes "begin") s.begin_sym
      × Interned s (codes "define") s.define_sym
      × Interned s (codes "if") s.if_sym
      × Interned s (codes "lambda") s.lambda_sym
      × Interned s (codes "let") s.let_sym
      × Interned s (codes "quote") s.quote_sym
      × Interned s (codes "set!") s.set_sym
unfolding symbol_init
symbol_init-IsTable r fresh =
    let (b, r1, e1, n1, t1, k1, i1, s1) = mintern_lem (codes "begin") (emptied-IsTable r fresh) in
    let (d, r2, e2, n2, t2, k2, i2, s2) = mintern_lem (codes "define") t1 in
    let (i, r3, e3, n3, t3, k3, i3, s3) = mintern_lem (codes "if") t2 in
    let (l, r4, e4, n4, t4, k4, i4, s4) = mintern_lem (codes "lambda") t3 in
    let (t, r5, e5, n5, t5, k5, i5, s5) = mintern_lem (codes "let") t4 in
    let (q, r6, e6, n6, t6, k6, i6, s6) = mintern_lem (codes "quote") t5 in
    let (s, r7, e7, n7, t7, k7, i7, s7) = mintern_lem (codes "set!") t6 in
    let now = special-Interned t7 b d i l t q s in
    (
      special t7 b d i l t q s,
      rw (e1, e2, e3, e4, e5, e6, e7) refl,
      special-IsTable t7 b d i l t q s,
      λ p o h. k7 p o (k6 p o (k5 p o (k4 p o (k3 p o (k2 p o (k1 p o h)))))),
      now _ b (s7 _ b (s6 _ b (s5 _ b (s4 _ b (s3 _ b (s2 _ b i1)))))),
      now _ d (s7 _ d (s6 _ d (s5 _ d (s4 _ d (s3 _ d i2))))),
      now _ i (s7 _ i (s6 _ i (s5 _ i (s4 _ i i3)))),
      now _ l (s7 _ l (s6 _ l (s5 _ l i4))),
      now _ t (s7 _ t (s6 _ t i5)),
      now _ q (s7 _ q i6),
      now _ s i7,
    )
