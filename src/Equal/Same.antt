-- ===== src/Equal/Same.antt =====
-- src/equal.c: what `Mequal` decides. Two values are the same if they are one word, or objects of one
-- kind whose parts are the same.
use mathlib.Core.Path.{subst, subst₂}
use minim.Base.{
  ℕ, zero, suc, ◌≡◌, inl, inr, sym, Bool, true, false, ◌&&◌, some, List, [], ◌∷◌, arith, Bool-cases,
  length, if◌then◌else◌,
}
use minim.Object.{
  Mobj, ◌=?◌, =?→eq, pair, typed, flonum, cons_cell, double, slots, str, vector, mpairp, mflonump,
}
use minim.Runtime.{Runtime, Cmd, ok, ◌>>=◌, and_then, mcar, mvectorp, mstringp}
use minim.Runtime.Bind.{and_then-ok, mcar-ok}
use minim.Symbol.{bytes_eq}
use minim.Symbol.Search.{bytes_eq→eq}
use minim.Equal.{
  both, mflonum_val, mstring_bytes, leaves_equal, strings_equal, slots_equal, vectors_equal,
  pairs_equal, cdrs_equal, objects_equal, mequal,
}

mutual
  pub data Same (double_eq : ℕ → ℕ → Bool) (r : Runtime) : Mobj → Mobj → Type 0 where
    word : {a b : Mobj} → a ≡ b → Same double_eq r a b
    pairs :
        {p q : ℕ} {a b d e : Mobj}
        → r.heap p ≡ some (cons_cell a d)
        → r.heap q ≡ some (cons_cell b e)
        → Same double_eq r a b
        → Same double_eq r d e
        → Same double_eq r (pair p) (pair q)
    vectors :
        {p q : ℕ} {xs ys : List Mobj}
        → r.heap p ≡ some (slots vector xs)
        → r.heap q ≡ some (slots vector ys)
        → SameAll double_eq r xs ys
        → Same double_eq r (typed p) (typed q)
    strings :
        {p q : ℕ} {bs : List ℕ}
        → r.heap p ≡ some (str bs)
        → r.heap q ≡ some (str bs)
        → Same double_eq r (typed p) (typed q)
    doubles :
        {p q : ℕ} {x y : ℕ}
        → r.heap p ≡ some (double x)
        → r.heap q ≡ some (double y)
        → double_eq x y ≡ true
        → Same double_eq r (flonum p) (flonum q)

  pub data SameAll (double_eq : ℕ → ℕ → Bool) (r : Runtime) : List Mobj → List Mobj → Type 0 where
    nil : SameAll double_eq r [] []
    cons :
        {a b : Mobj} {xs ys : List Mobj}
        → Same double_eq r a b
        → SameAll double_eq r xs ys
        → SameAll double_eq r (a ∷ xs) (b ∷ ys)

slots_cons :
    (eq : Mobj → Mobj → Cmd Bool) (x y : Mobj) (xs ys : List Mobj) (r t : Runtime)
    → slots_equal eq (x ∷ xs) (y ∷ ys) r ≡ ok true t
    → (s : Runtime) × (eq x y r ≡ ok true s) × (slots_equal eq xs ys s ≡ ok true t)
unfolding slots_equal
slots_cons eq x y xs ys r t h = ground arith

cdrs_inv :
    (eq : Mobj → Mobj → Cmd Bool) (p q : ℕ) (x d y e : Mobj) (r t : Runtime)
    → r.heap p ≡ some (cons_cell x d)
    → r.heap q ≡ some (cons_cell y e)
    → cdrs_equal eq (pair p) (pair q) r ≡ ok true t
    → eq d e r ≡ ok true t
unfolding cdrs_equal
cdrs_inv eq p q x d y e r t hp hq h = ground arith

cars_inv :
    (eq : Mobj → Mobj → Cmd Bool) (p q : ℕ) (x d y e : Mobj) (r t : Runtime)
    → r.heap p ≡ some (cons_cell x d)
    → r.heap q ≡ some (cons_cell y e)
    → pairs_equal eq (pair p) (pair q) r ≡ ok true t
    → (s : Runtime) × (eq x y r ≡ ok true s) × (cdrs_equal eq (pair p) (pair q) s ≡ ok true t)
unfolding pairs_equal
cars_inv eq p q x d y e r t hp hq h = ground arith

cells_inv :
    (eq : Mobj → Mobj → Cmd Bool) (a b : Mobj) (r t : Runtime)
    → pairs_equal eq a b r ≡ ok true t
    → (p q : ℕ) × (x d y e : Mobj) × (a ≡ pair p)
      × (b ≡ pair q)
      × (r.heap p ≡ some (cons_cell x d))
      × (r.heap q ≡ some (cons_cell y e))
unfolding pairs_equal
cells_inv eq a b r t h =
    let (x, s, e, k) = and_then-ok (mcar a r) _ h in
    let (p, d, ea, hp, same) = mcar-ok a e in
    let (y, u, e', _) = and_then-ok (mcar b s) _ k in
    let (q, d', eb, hq, _) = mcar-ok b e' in
    (p, q, x, d, y, d', ea, eb, hp, subst (λ w. w.heap q ≡ some (cons_cell y d')) same hq)

vectors_inv :
    (eq : Mobj → Mobj → Cmd Bool) (a b : Mobj) (r t : Runtime)
    → both mvectorp a b r ≡ ok true r
    → vectors_equal eq a b r ≡ ok true t
    → (p q : ℕ) × (xs ys : List Mobj) × (a ≡ typed p)
      × (b ≡ typed q)
      × (r.heap p ≡ some (slots vector xs))
      × (r.heap q ≡ some (slots vector ys))
      × (length ys ≡ length xs)
      × (slots_equal eq xs ys r ≡ ok true t)
unfolding vectors_equal mvectorp
vectors_inv eq a b r t v h = ground arith

mstring_bytes-ok :
    (v : Mobj) {r t : Runtime} {bs : List ℕ}
    → mstring_bytes v r ≡ ok bs t
    → (p : ℕ) × (v ≡ typed p) × (r.heap p ≡ some (str bs)) × (t ≡ r)
unfolding mstring_bytes
mstring_bytes-ok v h = ground arith

mflonum_val-ok :
    (v : Mobj) {r t : Runtime} {x : ℕ}
    → mflonum_val v r ≡ ok x t
    → (p : ℕ) × (v ≡ flonum p) × (r.heap p ≡ some (double x)) × (t ≡ r)
unfolding mflonum_val
mflonum_val-ok v h = ground arith

strings_inv :
    (a b : Mobj) (r t : Runtime)
    → strings_equal a b r ≡ ok true t
    → (p q : ℕ) × (xs ys : List ℕ) × (a ≡ typed p)
      × (b ≡ typed q)
      × (r.heap p ≡ some (str xs))
      × (r.heap q ≡ some (str ys))
      × (bytes_eq xs ys ≡ true)
      × (t ≡ r)
unfolding strings_equal
strings_inv a b r t h =
    let (xs, s, e, k) = and_then-ok (mstring_bytes a r) _ h in
    let (p, ea, hp, same) = mstring_bytes-ok a e in
    let (ys, u, e', k') = and_then-ok (mstring_bytes b s) _ k in
    let (q, eb, hq, same') = mstring_bytes-ok b e' in
    (
      p,
      q,
      xs,
      ys,
      ea,
      eb,
      hp,
      subst (λ w. w.heap q ≡ some (str ys)) same hq,
      ground arith,
      ground arith,
    )

leaves_inv :
    (double_eq : ℕ → ℕ → Bool) (a b : Mobj) (r t : Runtime)
    → leaves_equal double_eq a b r ≡ ok true t
    → (p q : ℕ) × (x y : ℕ) × (a ≡ flonum p)
      × (b ≡ flonum q)
      × (r.heap p ≡ some (double x))
      × (r.heap q ≡ some (double y))
      × (double_eq x y ≡ true)
      × (t ≡ r)
unfolding leaves_equal
leaves_inv double_eq a b r t h = elim (Bool-cases (mflonump a && mflonump b)) [
  | inr no_doubles ↦ cc (rw no_doubles at h)
  | inl are_doubles ↦
      let h' = rw are_doubles at h in
      let (x, s, e, k) = and_then-ok (mflonum_val a r) _ h' in
      let (p, ea, hp, same) = mflonum_val-ok a e in
      let (y, u, e', k') = and_then-ok (mflonum_val b s) _ k in
      let (q, eb, hq, same') = mflonum_val-ok b e' in
      (
        p,
        q,
        x,
        y,
        ea,
        eb,
        hp,
        subst (λ w. w.heap q ≡ some (double y)) same hq,
        ground arith,
        ground arith,
      )
]

both-mvectorp-state : (a b : Mobj) {r s : Runtime} {v : Bool} → both mvectorp a b r ≡ ok v s → s ≡ r
unfolding mvectorp
both-mvectorp-state a b h = ground arith

both-mstringp-state : (a b : Mobj) {r s : Runtime} {v : Bool} → both mstringp a b r ≡ ok v s → s ≡ r
unfolding mstringp
both-mstringp-state a b h = ground arith

module _ (double_eq : ℕ → ℕ → Bool) (r : Runtime) where
  -- A comparison that answers `true` only of values that are the same, and changes nothing.
  abbrev Sound : (Mobj → Mobj → Cmd Bool) → Type 0
  Sound eq = (x y : Mobj) (t : Runtime) → eq x y r ≡ ok true t → Same double_eq r x y × (t ≡ r)

  module _ (eq : Mobj → Mobj → Cmd Bool) (sound : Sound eq) where
    slots_equal-Sound :
        (xs ys : List Mobj) (t : Runtime)
        → length ys ≡ length xs
        → slots_equal eq xs ys r ≡ ok true t
        → SameAll double_eq r xs ys × (t ≡ r)
    unfolding slots_equal
    slots_equal-Sound [] [] t n h = (nil, cc)
    slots_equal-Sound [] (y ∷ ys) t n h = absurd (omega arith)
    slots_equal-Sound (x ∷ xs) [] t n h = absurd (omega arith)
    slots_equal-Sound (x ∷ xs) (y ∷ ys) t n h =
        let (s, e, k) = slots_cons eq x y xs ys r t h in
        let (same, s_eq) = sound x y s e in
        let (rest, t_eq) =
          slots_equal-Sound xs ys t (omega arith)
            (subst (λ u. slots_equal eq xs ys u ≡ ok true t) s_eq k) in
        (cons same rest, t_eq)

    pairs_equal-Sound :
        (a b : Mobj) (t : Runtime)
        → pairs_equal eq a b r ≡ ok true t
        → Same double_eq r a b × (t ≡ r)
    pairs_equal-Sound a b t h =
        let (p, q, x, d, y, e, ea, eb, hp, hq) = cells_inv eq a b r t h in
        let h' = subst₂ (λ v w. pairs_equal eq v w r ≡ ok true t) ea eb h in
        let (s, cars, rest) = cars_inv eq p q x d y e r t hp hq h' in
        let (same, s_eq) = sound x y s cars in
        let rest' = subst (λ u. cdrs_equal eq (pair p) (pair q) u ≡ ok true t) s_eq rest in
        let (same', t_eq) = sound d e t (cdrs_inv eq p q x d y e r t hp hq rest') in
        (rw (ea, eb) (pairs hp hq same same'), t_eq)

    vectors_equal-Sound :
        (a b : Mobj) (t : Runtime)
        → both mvectorp a b r ≡ ok true r
        → vectors_equal eq a b r ≡ ok true t
        → Same double_eq r a b × (t ≡ r)
    vectors_equal-Sound a b t v h =
        let (p, q, xs, ys, ea, eb, hp, hq, n, k) = vectors_inv eq a b r t v h in
        let (same, t_eq) = slots_equal-Sound xs ys t n k in (rw (ea, eb) (vectors hp hq same), t_eq)

  strings_equal-Sound :
      (a b : Mobj) (t : Runtime) → strings_equal a b r ≡ ok true t → Same double_eq r a b × (t ≡ r)
  strings_equal-Sound a b t h =
      let (p, q, xs, ys, ea, eb, hp, hq, k, t_eq) = strings_inv a b r t h in
      let hq' = subst (λ zs. r.heap q ≡ some (str zs)) (sym (bytes_eq→eq xs ys k)) hq in
      (rw (ea, eb) (strings hp hq'), t_eq)

  leaves_equal-Sound :
      (a b : Mobj) (t : Runtime)
      → leaves_equal double_eq a b r ≡ ok true t
      → Same double_eq r a b × (t ≡ r)
  leaves_equal-Sound a b t h =
      let (p, q, x, y, ea, eb, hp, hq, k, t_eq) = leaves_inv double_eq a b r t h in
      (rw (ea, eb) (doubles hp hq k), t_eq)

  objects_equal-Sound :
      (eq : Mobj → Mobj → Cmd Bool)
      → Sound eq
      → (a b : Mobj) (t : Runtime) → objects_equal double_eq eq a b r ≡ ok true t
      → Same double_eq r a b × (t ≡ r)
  unfolding objects_equal
  objects_equal-Sound eq sound a b t h = vector_case (and_then-ok (both mvectorp a b r) _ h)
    where
      string_case :
          (v : Bool) × (s : Runtime) × (both mstringp a b r ≡ ok v s)
            × ((if v then strings_equal a b else leaves_equal double_eq a b) s ≡ ok true t)
          → Same double_eq r a b × (t ≡ r)
      string_case (true, s, e, k) =
          strings_equal-Sound a b t
            (subst (λ u. strings_equal a b u ≡ ok true t) (both-mstringp-state a b e) k)
      string_case (false, s, e, k) =
          leaves_equal-Sound a b t
            (subst (λ u. leaves_equal double_eq a b u ≡ ok true t) (both-mstringp-state a b e) k)

      vector_case :
          (v : Bool) × (s : Runtime) × (both mvectorp a b r ≡ ok v s)
            × ((if v
                    then vectors_equal eq a b
                    else both mstringp a b >>= λ strings.
                        if strings then strings_equal a b else leaves_equal double_eq a b)
                  s
                ≡ ok true t)
          → Same double_eq r a b × (t ≡ r)
      vector_case (true, s, e, k) =
          let same = both-mvectorp-state a b e in
          vectors_equal-Sound eq sound a b t (cc (e, same))
            (subst (λ u. vectors_equal eq a b u ≡ ok true t) same k)
      vector_case (false, s, e, k) = string_case (
          and_then-ok (both mstringp a b r) _ (
            subst
              (λ u.
                and_then (both mstringp a b u)
                  (λ strings. if strings then strings_equal a b else leaves_equal double_eq a b)
                ≡ ok true t)
              (both-mvectorp-state a b e) k))

  -- When `Mequal` answers `true`, its arguments are the same and nothing has changed.
  pub mequal-Sound : (fuel : ℕ) → Sound (mequal double_eq fuel)
  unfolding mequal
  mequal-Sound zero a b t h = cc
  mequal-Sound (suc fuel) a b t h = elim (Bool-cases (a =? b)) [
    | inl same ↦ (word (=?→eq a b same), cc (rw same at h))
    | inr differ ↦ elim (Bool-cases (mpairp a && mpairp b)) [
      | inl both_pairs ↦
          pairs_equal-Sound (mequal double_eq fuel) (mequal-Sound fuel) a b t
            (rw (differ, both_pairs) at h)
      | inr not_pairs ↦
          objects_equal-Sound (mequal double_eq fuel) (mequal-Sound fuel) a b t
            (rw (differ, not_pairs) at h)
    ]
  ]

-- When `Mequal` answers `true`, its arguments are structurally the same in the heap (one word, or
-- pairs, vectors, strings or doubles whose parts are the same), and the state has not changed.
pub mequal-Same :
    (double_eq : ℕ → ℕ → Bool) (fuel : ℕ) (a b : Mobj) (r : Runtime) {t : Runtime}
    → mequal double_eq fuel a b r ≡ ok true t
    → Same double_eq r a b × (t ≡ r)
mequal-Same double_eq fuel a b r {t} h = mequal-Sound double_eq r fuel a b t h
