-- ===== src/Eval/Start.antt =====
-- src/symbol.c and src/eval.c: the special symbols that `symbol_init` makes.
use minim.Base.{◌≡◌, ◌≢◌, refl, false, List, ℕ, codes}
use minim.Object.{Mobj, ◌=?◌, =?_ne}
use minim.Runtime.{Runtime, ok}
use minim.Runtime.Laws.{IsFresh}
use minim.Symbol.{symbol_init, bytes_eq}
use minim.Symbol.Laws.{IsTable, Interned, mintern_again, mintern-eq_iff}
use minim.Symbol.Search.{bytes_eq_refl}
use minim.Symbol.Init.{symbol_init-IsTable}
use minim.Eval.Rounds.{IsDistinct}

names_differ : (x y : List ℕ) → bytes_eq x y ≡ false → x ≢ y
names_differ x y h e = let same = bytes_eq_refl y in cc (h, e, same)

words_differ :
    (x y : List ℕ) {r : Runtime} {v w : Mobj}
    → IsTable r
    → Interned r x v
    → Interned r y w
    → bytes_eq x y ≡ false
    → (v =? w) ≡ false
words_differ x y {r} {v} {w} table hx hy differ = =?_ne v w (λ e.
    names_differ x y differ
      ((mintern-eq_iff x y table (mintern_again x v r hx) (mintern_again y w r hy)).0 e))

-- In a fresh heap `symbol_init` succeeds with a well-formed intern table in which the symbols of quote,
-- if and begin are different words, as the dispatch of the evaluator needs.
pub symbol_init-IsDistinct :
    (r : Runtime) → IsFresh r → (s : Runtime) × (symbol_init r ≡ ok tt s) × IsTable s × IsDistinct s
unfolding bytes_eq
symbol_init-IsDistinct r fresh =
    let (s, done, table, kept, b, d, i, l, t, q, w) = symbol_init-IsTable r fresh in
    (
      s,
      done,
      table,
      record {
        if_quote = words_differ (codes "if") (codes "quote") table i q refl;
        begin_quote = words_differ (codes "begin") (codes "quote") table b q refl;
        begin_if = words_differ (codes "begin") (codes "if") table b i refl;
      },
    )
