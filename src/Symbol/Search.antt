-- ===== src/Symbol/Search.antt =====
-- src/symbol.c: the names behind symbols, and the search of a bucket.
use mathlib.Core.Path.{subst}
use minim.Base.{
  ℕ, ◌≡◌, ◌≢◌, inl, inr, refl, true, false, Option, none, some, List, [], ◌∷◌, arith, Bool-cases,
}
use minim.Object.{Mobj, symbol, name}
use minim.Runtime.{Runtime, ok, msymbol_name}
use minim.Runtime.Laws.{Keeps}
use minim.Symbol.{bytes_eq, find_symbol}

pub bytes_eq→eq : (xs ys : List ℕ) → bytes_eq xs ys ≡ true → xs ≡ ys
unfolding bytes_eq
bytes_eq→eq [] [] h = refl
bytes_eq→eq [] (y ∷ ys) h = cc
bytes_eq→eq (x ∷ xs) [] h = cc
bytes_eq→eq (x ∷ xs) (y ∷ ys) h = ground (arith, bytes_eq→eq xs ys)

pub bytes_eq_refl : (xs : List ℕ) → bytes_eq xs xs ≡ true
unfolding bytes_eq
bytes_eq_refl [] = refl
bytes_eq_refl (x ∷ xs) = ground (arith, bytes_eq_refl xs)

bytes_eq_ne : (xs ys : List ℕ) → xs ≢ ys → bytes_eq xs ys ≡ false
bytes_eq_ne xs ys h = elim (Bool-cases (bytes_eq xs ys)) [
  | inl same ↦ absurd (h (bytes_eq→eq xs ys same))
  | inr differ ↦ differ
]

-- `v` is a symbol whose name is `s`.
pub data Named (r : Runtime) (s : List ℕ) : Mobj → Type 0 where
  named : {p : ℕ} → r.heap p ≡ some (name s) → Named r s (symbol p)

pub Named-name : {r : Runtime} {s : List ℕ} {v : Mobj} → Named r s v → msymbol_name v r ≡ ok s r
unfolding msymbol_name
Named-name (named e) = ground arith

pub Named-Keeps : {r t : Runtime} {s : List ℕ} {v : Mobj} → Keeps r t → Named r s v → Named t s v
Named-Keeps k (named {p} e) = named (k p _ e)

-- Each entry of a bucket is a symbol with a name.
abbrev pub AllNamed : Runtime → List Mobj → Type 0
AllNamed r [] = Unit {0}
AllNamed r (v ∷ vs) = ((s : List ℕ) × Named r s v) × AllNamed r vs

pub AllNamed-Keeps : (r t : Runtime) (vs : List Mobj) → Keeps r t → AllNamed r vs → AllNamed t vs
AllNamed-Keeps r t [] k h = tt
AllNamed-Keeps r t (v ∷ vs) k h = ((h.0.0, Named-Keeps k h.0.1), AllNamed-Keeps r t vs k h.1)

abbrev pub Found : Runtime → List ℕ → Option Mobj → Type 0
Found r s none = Unit {0}
Found r s (some v) = Named r s v

-- The search of a well-formed bucket ends with no symbol or with one of that name.
pub find_symbol_total :
    (s : List ℕ) (vs : List Mobj) (r : Runtime)
    → AllNamed r vs
    → (o : Option Mobj) × (find_symbol s vs r ≡ ok o r) × Found r s o
unfolding find_symbol
find_symbol_total s [] r h = (none, refl, tt)
find_symbol_total s (v ∷ vs) r ((t, n), h) = elim (Bool-cases (bytes_eq t s)) [
  | inl same ↦ (some v, rw (Named-name n, same), subst (λ u. Named r u v) (bytes_eq→eq t s same) n)
  | inr differ ↦ let (o, e, f) = find_symbol_total s vs r h in (o, rw (Named-name n, differ) e, f)
]

-- A search gives the same in a state that keeps the objects.
pub find_symbol-Keeps :
    (s : List ℕ) (vs : List Mobj) (r t : Runtime)
    → Keeps r t
    → AllNamed r vs
    → {o : Option Mobj} → find_symbol s vs r ≡ ok o r
    → find_symbol s vs t ≡ ok o t
unfolding find_symbol
find_symbol-Keeps s [] r t k h e = cc
find_symbol-Keeps s (v ∷ vs) r t k ((u, n), h) e = elim (Bool-cases (bytes_eq u s)) [
  | inl same ↦
      let e' = rw (Named-name n, same) at e in rw (Named-name (Named-Keeps {t = t} k n), same) (cc)
  | inr differ ↦
      let e' = rw (Named-name n, differ) at e in
      rw (Named-name (Named-Keeps {t = t} k n), differ) (find_symbol-Keeps s vs r t k h e')
]

pub find_symbol_front :
    (s : List ℕ) (v : Mobj) (vs : List Mobj) (r : Runtime)
    → Named r s v
    → find_symbol s (v ∷ vs) r ≡ ok (some v) r
unfolding find_symbol
find_symbol_front s v vs r n = rw (Named-name n, bytes_eq_refl s)

pub find_symbol_skip :
    (s t : List ℕ) (v : Mobj) (vs : List Mobj) (r : Runtime)
    → Named r s v
    → bytes_eq s t ≡ false
    → find_symbol t (v ∷ vs) r ≡ find_symbol t vs r
unfolding find_symbol
find_symbol_skip s t v vs r n differ = rw (Named-name n, differ)
