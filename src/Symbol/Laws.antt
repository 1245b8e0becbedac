-- ===== src/Symbol/Laws.antt =====
-- src/symbol.c: well-formed intern tables, and interning in them.
use mathlib.Core.Path.{subst, ap}
use minim.Base.{
  ◌↔◌, ℕ, suc, ◌<◌, ◌≤◌, ◌≡◌, inl, inr, sym, false, Option, none, some, List, [], ◌∷◌, arith,
  Bool-cases, ◌==◌, ==_iff, length, get_or, set, length-set, get_or-set_self, get_or-set_ne,
}
use minim.Object.{Mobj, symbol, name, object_size}
use minim.Runtime.{Runtime, ok}
use minim.Runtime.Laws.{IsFresh, Keeps, Keeps-refl}
use minim.Alloc.Laws.{allocated, gc_alloc-Keeps, gc_alloc-IsFresh}
use minim.Symbol.{bytes_eq, find_symbol, bucket_of, mintern}
use minim.Symbol.Search.{
  AllNamed, AllNamed-Keeps, Found, Named, Named-Keeps, Named-name, bytes_eq→eq, find_symbol-Keeps,
  find_symbol_front, find_symbol_skip, find_symbol_total, named,
}

-- The table: some buckets, and in each of them symbols with names.
pub record IsTable (r : Runtime) : Type 0 where
  pub fresh : IsFresh r
  pub size : 0 < length r.intern_table
  pub buckets : (i : ℕ) → AllNamed r (get_or r.intern_table i [])

-- The table gives `v` for the name `s`.
abbrev pub Interned : Runtime → List ℕ → Mobj → Type 0
Interned r s v = find_symbol s (get_or r.intern_table (bucket_of s r) []) r ≡ ok (some v) r

-- A name that the table has is given its symbol, and nothing changes.
pub mintern_again : (s : List ℕ) (v : Mobj) (r : Runtime) → Interned r s v → mintern s r ≡ ok v r
unfolding mintern
mintern_again s v r h = rw h

-- It gives the same in a state with the same buckets that keeps the objects.
pub Interned-Keeps :
    {r : Runtime} (t : Runtime)
    → IsTable r
    → Keeps r t
    → t.intern_table ≡ r.intern_table
    → (s : List ℕ) (v : Mobj) → Interned r s v
    → Interned t s v
unfolding bucket_of
Interned-Keeps {r} t table kept same s v h =
    let found = find_symbol-Keeps s _ r t kept (table.buckets (bucket_of s r)) h in simp same found

-- The state after a new symbol.
abbrev added : List ℕ → Runtime → Runtime
added s r =
    let r' = allocated (name s) r in
    record r' {
      intern_table =
          set r.intern_table (bucket_of s r)
            (symbol r.ap ∷ get_or r.intern_table (bucket_of s r) []);
      intern_table_n = suc r.intern_table_n;
    }

module _ (s : List ℕ) {r : Runtime} (table : IsTable r) where
  abbrev bucket : List Mobj
  bucket = get_or r.intern_table (bucket_of s r) []

  added-Keeps : Keeps r (added s r)
  added-Keeps = gc_alloc-Keeps (name s) table.fresh

  bucket-lt : bucket_of s r < length r.intern_table
  unfolding bucket_of
  bucket-lt = omega (arith, table.size)

  added-Named : Named (added s r) s (symbol r.ap)
  added-Named = named (ground arith)

  bucket_of-added : (t : List ℕ) → bucket_of t (added s r) ≡ bucket_of t r
  unfolding bucket_of
  bucket_of-added t = rw length-set

  added_here : get_or (added s r).intern_table (bucket_of s r) [] ≡ symbol r.ap ∷ bucket
  added_here = get_or-set_self r.intern_table (bucket_of s r) _ [] bucket-lt

  added_there :
      (i : ℕ)
      → (bucket_of s r == i) ≡ false
      → get_or (added s r).intern_table i [] ≡ get_or r.intern_table i []
  added_there i differ = get_or-set_ne r.intern_table (bucket_of s r) i _ [] (ground arith)

  added-buckets : (i : ℕ) → AllNamed (added s r) (get_or (added s r).intern_table i [])
  added-buckets i = elim (Bool-cases (bucket_of s r == i)) [
    | inl same ↦
        subst (λ j. AllNamed (added s r) (get_or (added s r).intern_table j []))
          ((==_iff _ i).0 same)
          (rw added_here
            ((s, added-Named), AllNamed-Keeps r _ bucket added-Keeps (table.buckets _)))
    | inr differ ↦ rw (added_there i differ) (AllNamed-Keeps r _ _ added-Keeps (table.buckets i))
  ]

  added-IsFresh : IsFresh (added s r)
  added-IsFresh =
      let f = gc_alloc-IsFresh (name s) table.fresh (unfold object_size in omega arith) in
      record { unused = f.unused }

  added-IsTable : IsTable (added s r)
  added-IsTable = record {
    fresh = added-IsFresh;
    size = rw length-set (table.size);
    buckets = added-buckets;
  }

  added-Interned : Interned (added s r) s (symbol r.ap)
  added-Interned =
      rw (bucket_of-added s, added_here) (find_symbol_front s _ bucket (added s r) added-Named)

  -- A name that the table had keeps its symbol.
  added-stable :
      find_symbol s bucket r ≡ ok none r
      → (t : List ℕ) (w : Mobj) → Interned r t w
      → Interned (added s r) t w
  added-stable miss t w h =
      let kept =
        find_symbol-Keeps t _ r (added s r) added-Keeps (table.buckets (bucket_of t r)) h in
      elim (Bool-cases (bucket_of s r == bucket_of t r)) [
        | inr differ ↦ rw (bucket_of-added t, added_there _ differ) kept
        | inl same ↦
            let e = (==_iff _ _).0 same in
            elim (Bool-cases (bytes_eq s t)) [
              | inl equal ↦
                  let h' : Interned r s w =
                    subst (λ u. Interned r u w) (sym (bytes_eq→eq s t equal)) h in
                  absurd (cc (miss, h'))
              | inr other ↦
                  rw
                    (
                      bucket_of-added t,
                      ← e,
                      added_here,
                      find_symbol_skip s t _ bucket (added s r) added-Named other,
                    )
                    (rw (← e) at kept)
            ]
      ]

  -- On a well-formed intern table interning succeeds: its symbol has the name and is what the table
  -- gives for that name from then on, the table stays well formed, and the objects and the symbols
  -- that it had are kept.
  pub mintern_lem :
      (v : Mobj) × (t : Runtime) × (mintern s r ≡ ok v t)
      × Named t s v
      × IsTable t
      × Keeps r t
      × Interned t s v
      × ((u : List ℕ) (w : Mobj) → Interned r u w → Interned t u w)
  unfolding mintern
  mintern_lem = go (find_symbol_total s bucket r (table.buckets _))
    where
      go :
          (o : Option Mobj) × (find_symbol s bucket r ≡ ok o r) × Found r s o
          → (v : Mobj) × (t : Runtime) × (mintern s r ≡ ok v t)
            × Named t s v
            × IsTable t
            × Keeps r t
            × Interned t s v
            × ((u : List ℕ) (w : Mobj) → Interned r u w → Interned t u w)
      go (some v, e, n) = (v, r, rw e, n, table, Keeps-refl r, e, λ u w h. h)
      go (none, e, n) = (
        symbol r.ap,
        added s r,
        rw e,
        added-Named,
        added-IsTable,
        added-Keeps,
        added-Interned,
        added-stable e,
      )

-- Interning leaves the top-level environment and the table of functions.
pub mintern_globals :
    (s : List ℕ) {r t : Runtime} {v : Mobj}
    → IsTable r
    → mintern s r ≡ ok v t
    → (t.top_level_env ≡ r.top_level_env) × (t.prim_fn_table ≡ r.prim_fn_table) × (r.ap ≤ t.ap)
unfolding mintern
mintern_globals s {r} {t} {v} table done =
    go (find_symbol_total s (get_or r.intern_table (bucket_of s r) []) r (table.buckets _))
  where
    go :
        (o : Option Mobj) × (find_symbol s (get_or r.intern_table (bucket_of s r) []) r ≡ ok o r)
          × Found r s o
        → (t.top_level_env ≡ r.top_level_env) × (t.prim_fn_table ≡ r.prim_fn_table) × (r.ap ≤ t.ap)
    go (some w, e, n) =
        let run : mintern s r ≡ ok w r = rw e in
        let same : t ≡ r = cc (done, run) in
        (
          ap (λ (x : Runtime). x.top_level_env) same,
          ap (λ (x : Runtime). x.prim_fn_table) same,
          omega (arith, ap (λ (x : Runtime). x.ap) same),
        )
    go (none, e, n) =
        let run : mintern s r ≡ ok (symbol r.ap) (added s r) = rw e in
        let same : t ≡ added s r = cc (done, run) in
        (
          ap (λ (x : Runtime). x.top_level_env) same,
          ap (λ (x : Runtime). x.prim_fn_table) same,
          omega (arith, ap (λ (x : Runtime). x.ap) same),
        )

-- On a well-formed intern table, two names interned one after the other give one symbol exactly when
-- they are the same name.
pub mintern-eq_iff :
    (s u : List ℕ) {r t t' : Runtime} {v w : Mobj}
    → IsTable r
    → mintern s r ≡ ok v t
    → mintern u t ≡ ok w t'
    → (v ≡ w) ↔ (s ≡ u)
mintern-eq_iff s u {r} {t} {t'} {v} {w} table e e' =
    let (v₁, t₁, e₁, named₁, table₁, kept₁, interned₁, stable₁) = mintern_lem s table in
    let same_state : t₁ ≡ t = cc (e₁, e) in
    let same_value : v₁ ≡ v = cc (e₁, e) in
    let (w₂, t₂, e₂, named₂, table₂, kept₂, interned₂, stable₂) = mintern_lem u table₁ in
    let e₃ : mintern u t₁ ≡ ok w t' = subst (λ x. mintern u x ≡ ok w t') (sym same_state) e' in
    let w_eq : w₂ ≡ w = cc (e₂, e₃) in
    let name_v = Named-name (Named-Keeps {t = t₂} kept₂ named₁) in
    let name_w = Named-name named₂ in
    let again = mintern_again s v₁ t₁ interned₁ in
    (
      λ same. cc (name_v, name_w, same, same_value, w_eq),
      λ same. cc (subst (λ x. mintern x t₁ ≡ ok v₁ t₁) same again, e₃, same_value),
    )
