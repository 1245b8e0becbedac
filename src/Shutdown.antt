-- ===== src/Shutdown.antt =====
-- src/system.c, Mshutdown, with eval_shutdown of src/eval.c, symbol_shutdown of src/symbol.c and, of
-- gc_shutdown of src/gc.c, the end of the heap. A word that is set to 0 is the fixnum 0, a table that is
-- NULL has no buckets, and what `free` takes back is no longer in the state.
use minim.Base.{ℕ, suc, ◌<◌, ◌≡◌, refl, none, List, [], ◌∷◌, get_or, length, arith}
use minim.Object.{Addr, Mobj, fixnum}
use minim.Runtime.{Runtime, Cmd, ok, ◌>>=◌, ◌>>◌, pure, msymbol_name}
use minim.Symbol.Search.{AllNamed, AllNamed-Keeps, Named-name}
use minim.Symbol.Laws.{IsTable}

-- The table of the primitives keeps its buffer and has no entries.
abbrev eval_reset : Runtime → Runtime
eval_reset r = record r {
  prim_fn_table = [];
  eval_expr = fixnum 0;
  eval_env = fixnum 0;
  eval_kont = fixnum 0;
  top_level_env = fixnum 0;
}

unfoldable pub eval_shutdown : Cmd (Unit {0})
eval_shutdown r = ok tt (eval_reset r)

-- The loop along one bucket, which reads each symbol's name to free it.
unfoldable pub free_bucket : List Mobj → Cmd (Unit {0})
free_bucket [] = pure tt
free_bucket (b ∷ bs) = let rest = free_bucket bs in do _ ← msymbol_name b; rest

unfoldable pub free_buckets : List (List Mobj) → Cmd (Unit {0})
free_buckets [] = pure tt
free_buckets (b ∷ bs) = let rest = free_buckets bs in do free_bucket b; rest

abbrev symbols_reset : Runtime → Runtime
symbols_reset r = record r {
  intern_table = [];
  intern_table_n = 0;
  begin_sym = fixnum 0;
  define_sym = fixnum 0;
  if_sym = fixnum 0;
  lambda_sym = fixnum 0;
  let_sym = fixnum 0;
  quote_sym = fixnum 0;
  set_sym = fixnum 0;
}

abbrev clear_symbols : Cmd (Unit {0})
clear_symbols r = ok tt (symbols_reset r)

abbrev unless_null : List (List Mobj) → Cmd (Unit {0})
unless_null [] = pure tt
unless_null (b ∷ bs) = do free_buckets (b ∷ bs); clear_symbols

unfoldable pub symbol_shutdown : Cmd (Unit {0})
symbol_shutdown r = unless_null r.intern_table r

-- Nothing is mapped.
abbrev unmapped : Runtime → Runtime
unmapped r = record r { heap = λ _. none }

unfoldable pub gc_shutdown : Cmd (Unit {0})
gc_shutdown r = ok tt (unmapped r)

unfoldable pub mshutdown : Cmd (Unit {0})
mshutdown = do eval_shutdown; symbol_shutdown; gc_shutdown

free_bucket_lem : (r : Runtime) (vs : List Mobj) → AllNamed r vs → free_bucket vs r ≡ ok tt r
unfolding free_bucket
free_bucket_lem r [] h = refl
free_bucket_lem r (v ∷ vs) ((s, n), h) = rw (Named-name n) (free_bucket_lem r vs h)

free_buckets_lem :
    (r : Runtime) (bs : List (List Mobj))
    → ((i : ℕ) → AllNamed r (get_or bs i []))
    → free_buckets bs r ≡ ok tt r
unfolding free_buckets
free_buckets_lem r [] h = refl
free_buckets_lem r (b ∷ bs) h =
    rw (free_bucket_lem r b (h 0)) (free_buckets_lem r bs (λ i. h (suc i)))

-- The table is gone, and so is every object.
pub record IsShut (t : Runtime) : Type 0 where
  pub no_table : t.intern_table ≡ []
  pub no_objects : (p : Addr) → t.heap p ≡ none

unless_null_lem :
    (r : Runtime) (bs : List (List Mobj))
    → 0 < length bs
    → ((i : ℕ) → AllNamed r (get_or bs i []))
    → unless_null bs r ≡ clear_symbols r
unless_null_lem r [] some_bucket h = absurd (omega arith)
unless_null_lem r (b ∷ bs) some_bucket h = rw (free_buckets_lem r (b ∷ bs) h) refl

-- On a well-formed intern table Mshutdown succeeds: each name is read before the heap goes.
pub mshutdown-IsShut :
    (r : Runtime) → IsTable r → (t : Runtime) × (mshutdown r ≡ ok tt t) × IsShut t
unfolding mshutdown eval_shutdown symbol_shutdown gc_shutdown
mshutdown-IsShut r table =
    let freed = unless_null_lem (eval_reset r) r.intern_table table.size (λ i.
      AllNamed-Keeps r (eval_reset r) (get_or r.intern_table i []) (λ p o h. h)
        (table.buckets i)) in
    (
      unmapped (symbols_reset (eval_reset r)),
      rw freed refl,
      record { no_table = refl; no_objects = λ p. refl },
    )
