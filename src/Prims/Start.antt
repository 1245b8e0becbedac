-- ===== src/Prims/Start.antt =====
-- src/system.c, `Minit`, and src/prims.c, `prims_register_all`: what the program starts with.
use minim.Base.{ℕ, ◌≡◌, refl, Bool, true, false, inl, inr, List, [], ◌∷◌, Bool-cases, if◌then◌else◌}
use minim.Object.{Mobj, mnull}
use minim.Runtime.{Runtime, ok}
use minim.Runtime.Laws.{IsFresh}
use minim.Symbol.{bytes_eq}
use minim.Symbol.Laws.{IsTable}
use minim.Symbol.Search.{bytes_eq_refl}
use minim.Symbol.Init.{symbol_init-IsTable}
use minim.Eval.Env.{set_top_level_env}
use minim.Eval.Env.Assoc.{TopEnv, nil}
use minim.Prims.Table.{
  Registration, register_all, registrations, prims_register_all, eval_init, minit,
}
use minim.Prims.Registered.{none_yet, SetUp, AllOther, AllFresh, register-SetUp, IsTable-Keeps}

-- The registrations in the order of the environment, the last one first.
abbrev pub onto : List Registration → List Registration → List Registration
onto [] before = before
onto (e ∷ es) before = onto es (e ∷ before)

register_all-SetUp :
    (es before : List Registration) {r : Runtime} {xs : List (Mobj × Mobj)}
    → SetUp r xs before
    → AllFresh es before
    → (s : Runtime) × (ys : List (Mobj × Mobj)) × (register_all es r ≡ ok tt s)
      × SetUp s ys (onto es before)
unfolding register_all
register_all-SetUp [] before {r} {xs} k fresh = (r, xs, refl, k)
register_all-SetUp (e ∷ es) before k (other, fresh) =
    let (t, sym_of, q, done, k') = register-SetUp e k other in
    let (s, ys, rest, k'') = register_all-SetUp es (e ∷ before) k' fresh in
    (s, ys, rw (done, rest) refl, k'')

-- The test that no name is registered twice.
abbrev other_names : List ℕ → List Registration → Bool
other_names s [] = true
other_names s (e ∷ es) = if bytes_eq e.name s then false else other_names s es

abbrev fresh_names : List Registration → List Registration → Bool
fresh_names [] before = true
fresh_names (e ∷ es) before =
    if other_names e.name before then fresh_names es (e ∷ before) else false

other_names-AllOther :
    (s : List ℕ) (es : List Registration) → other_names s es ≡ true → AllOther s es
other_names-AllOther s [] h = tt
other_names-AllOther s (e ∷ es) h = elim (Bool-cases (bytes_eq e.name s)) [
  | inl same ↦ absurd cc
  | inr differ ↦ (
    λ equal. absurd (cc (bytes_eq_refl s, differ, equal)),
    other_names-AllOther s es (rw differ at h),
  )
]

fresh_names-AllFresh :
    (es before : List Registration) → fresh_names es before ≡ true → AllFresh es before
fresh_names-AllFresh [] before h = tt
fresh_names-AllFresh (e ∷ es) before h = elim (Bool-cases (other_names e.name before)) [
  | inl fresh ↦ (
    other_names-AllOther e.name before fresh,
    fresh_names-AllFresh es (e ∷ before) (rw fresh at h),
  )
  | inr seen ↦ absurd cc
]

registrations_fresh : fresh_names registrations [] ≡ true
unfolding bytes_eq
registrations_fresh = refl

-- From a well-formed intern table and an empty top-level environment `prims_register_all` succeeds: the
-- table is well formed, and the environment is an association list with one entry for each registration,
-- the last one first, that binds the symbol that the intern table gives for its name to a primitive with
-- that symbol, its arities and its C function.
pub prims_register_all-SetUp :
    (r : Runtime)
    → IsTable r
    → TopEnv r r.ap r.top_level_env []
    → (s : Runtime) × (xs : List (Mobj × Mobj)) × (prims_register_all r ≡ ok tt s)
      × SetUp s xs (onto registrations [])
unfolding prims_register_all
prims_register_all-SetUp r table env =
    register_all-SetUp registrations [] (record { table = table; env = env; bound = none_yet })
      (fresh_names-AllFresh registrations [] registrations_fresh)

-- From a fresh heap `Minit` succeeds, behind the mapping of the spaces: the intern table is well formed,
-- and the top-level environment has one entry for each primitive, the last one first, that binds the
-- symbol that the intern table gives for its name to a primitive with that symbol, its arities and its
-- C function.
pub minit-SetUp :
    (r : Runtime)
    → IsFresh r
    → (s : Runtime) × (xs : List (Mobj × Mobj)) × (minit r ≡ ok tt s)
      × SetUp s xs (onto registrations [])
unfolding minit eval_init set_top_level_env
minit-SetUp r fresh =
    let (t, done, table, keeps, b, d, i, l, le, q, st) = symbol_init-IsTable r fresh in
    let t' : Runtime = record t {
      eval_expr = mnull;
      eval_env = mnull;
      eval_kont = mnull;
      top_level_env = mnull;
    } in
    let table' =
      IsTable-Keeps t' table (λ p o h. h) (record { unused = table.fresh.unused }) refl in
    let (s, xs, registered, k) = prims_register_all-SetUp t' table' nil in
    (s, xs, rw (done, registered) refl, k)
