-- ===== src/Equal/Hash.antt =====
-- src/equal.c: `Mhash` on values that `Mequal` compares.
use mathlib.Core.Path.{subst}
use minim.Base.{
  ℕ, zero, suc, ◌≡◌, ◌⊎◌, refl, sym, ap, ◌∙◌, Bool, true, false, some, List, ◌∷◌, arith, length,
  if◌then◌else◌,
}
use minim.Object.{Mobj, pair, typed, flonum, cons_cell, double, slots, str, vector, mpairp}
use minim.Runtime.{
  Runtime, Cmd, ok, and_then, pure, ◌>>=◌, mcar, mcdr, mvectorp, mstringp, typed_slots,
}
use minim.Runtime.Bind.{mcar-at, mcdr-at}
use minim.Equal.{
  mflonum_val, mstring_bytes, mix, hash_slots, hash_vector, hash_string, hash_leaf, hash_object,
  mhash, hash_chain, canonical, mequal,
}
use minim.Equal.Same.{
  mequal-Sound, Same, SameAll, word, pairs, vectors, strings, doubles, nil, cons,
}
use minim.Equal.Reads.{
  Reads, Reads-and_then, Reads-if, and_then-agree, hash_slots-Reads, if_both, leaf_or_string-Reads,
  mcar-Reads, mcar_none, mcdr-Reads, mstringp-Reads, mvectorp-Reads, typed_slots-Reads,
}

module _ (double_eq : ℕ → ℕ → Bool) (r : Runtime) where
  hash_object-Reads :
      (hash : Mobj → Cmd ℕ)
      → ((v : Mobj) → Reads r (hash v r))
      → (v : Mobj) → Reads r (hash_object double_eq hash v r)
  unfolding hash_object hash_vector
  hash_object-Reads hash reads v =
      Reads-and_then r (mvectorp v r) _ (mvectorp-Reads v r)
        λ where_vector. vector_case where_vector
    where
      vector_case :
          (b : Bool)
          → Reads r (
              (if b
                  then hash_vector hash v
                  else mstringp v >>= λ string.
                      if string then hash_string v else hash_leaf double_eq v)
                r)
      vector_case true =
          Reads-and_then r (typed_slots v r) _ (typed_slots-Reads v r)
            (λ xs. hash_slots-Reads hash r reads _ xs)
      vector_case false =
          Reads-and_then r (mstringp v r) _ (mstringp-Reads v r)
            (leaf_or_string-Reads double_eq v r)

  abbrev chain_rest : ℕ → ℕ → Mobj → Cmd ℕ
  chain_rest fuel h cdr =
      if mpairp cdr
      then hash_chain double_eq fuel h cdr
      else mhash double_eq fuel cdr >>= λ last. pure (mix h last)

  mutual
    unfolding mhash

    mhash-Reads : (fuel : ℕ) (v : Mobj) → Reads r (mhash double_eq fuel v r)
    mhash-Reads zero v = λ a s e. cc
    mhash-Reads (suc fuel) v =
        Reads-if r (mpairp v) _ _ (hash_chain-Reads fuel _ v)
          (hash_object-Reads (mhash double_eq fuel) (λ w. mhash-Reads fuel w) v)

    hash_chain-Reads : (fuel h : ℕ) (v : Mobj) → Reads r (hash_chain double_eq fuel h v r)
    hash_chain-Reads zero h v = λ a s e. cc
    hash_chain-Reads (suc fuel) h v = Reads-and_then r (mcar v r) _ (mcar-Reads v r) λ car.
        Reads-and_then r (mhash double_eq fuel car r) _ (mhash-Reads fuel car) λ k.
          Reads-and_then r (mcdr v r) _ (mcdr-Reads v r) λ cdr.
            Reads-if r (mpairp cdr) _ _ (hash_chain-Reads fuel _ cdr) (
              Reads-and_then r (mhash double_eq fuel cdr r) _ (mhash-Reads fuel cdr)
                λ last a s e. cc)

  hash_chain_step :
      (fuel h : ℕ) {p : ℕ} {a d : Mobj}
      → r.heap p ≡ some (cons_cell a d)
      → hash_chain double_eq (suc fuel) h (pair p) r
        ≡ and_then (mhash double_eq fuel a r) (λ k. chain_rest fuel (mix h k) d)
  unfolding hash_chain
  hash_chain_step fuel h {p} {a} {d} e =
      rw (mcar-at r p e) (
        and_then-agree r (mhash double_eq fuel a r) _ _ (mhash-Reads fuel a)
          λ k. rw (mcdr-at r p e))

  -- What the hash reads of a value, at every fuel.
  record Agree (a b : Mobj) : Type 0 where
    kind : mpairp a ≡ mpairp b
    hash : (fuel : ℕ) → mhash double_eq fuel a r ≡ mhash double_eq fuel b r
    chain : (fuel h : ℕ) → hash_chain double_eq fuel h a r ≡ hash_chain double_eq fuel h b r

  record AgreeAll (xs ys : List Mobj) : Type 0 where
    count : length xs ≡ length ys
    hashes :
        (fuel h : ℕ)
        → hash_slots (mhash double_eq fuel) h xs r ≡ hash_slots (mhash double_eq fuel) h ys r

  cons-AgreeAll :
      {a b : Mobj} {xs ys : List Mobj} → Agree a b → AgreeAll xs ys → AgreeAll (a ∷ xs) (b ∷ ys)
  unfolding hash_slots
  cons-AgreeAll {a} {b} {xs} {ys} g all = record {
    count = ap suc all.count;
    hashes = λ fuel h. rw (g.hash fuel) (
        and_then-agree r (mhash double_eq fuel b r) _ _ (mhash-Reads fuel b)
          λ k. all.hashes fuel (mix h k));
  }

  Agree-refl : (a : Mobj) → Agree a a
  Agree-refl a = record { kind = refl; hash = λ fuel. refl; chain = λ fuel h. refl }

  chain_rest-Agree :
      (fuel h : ℕ) (d e : Mobj) → Agree d e → chain_rest fuel h d r ≡ chain_rest fuel h e r
  chain_rest-Agree fuel h d e g =
      rw (g.kind) (if_both r (mpairp e) _ _ _ _ (g.chain fuel h) (rw (g.hash fuel)))

  pairs-chain :
      {p q : ℕ} {a b d e : Mobj}
      → r.heap p ≡ some (cons_cell a d)
      → r.heap q ≡ some (cons_cell b e)
      → Agree a b
      → Agree d e
      → (fuel h : ℕ)
      → hash_chain double_eq fuel h (pair p) r ≡ hash_chain double_eq fuel h (pair q) r
  pairs-chain hp hq cars cdrs zero h = unfold hash_chain in refl
  pairs-chain hp hq cars cdrs (suc fuel) h =
      rw (hash_chain_step fuel h hp, hash_chain_step fuel h hq, cars.hash)
        (and_then-agree r (mhash double_eq fuel _ r) _ _ (mhash-Reads fuel _)
          λ k. chain_rest-Agree fuel (mix h k) _ _ cdrs)

  -- Pairs hash by the chain that starts at them.
  mhash_pair :
      (p q : ℕ)
      → ((fuel h : ℕ)
          → hash_chain double_eq fuel h (pair p) r ≡ hash_chain double_eq fuel h (pair q) r)
      → (fuel : ℕ) → mhash double_eq fuel (pair p) r ≡ mhash double_eq fuel (pair q) r
  unfolding mhash
  mhash_pair p q chain zero = refl
  mhash_pair p q chain (suc fuel) = chain fuel _

  pairs-Agree :
      {p q : ℕ} {a b d e : Mobj}
      → r.heap p ≡ some (cons_cell a d)
      → r.heap q ≡ some (cons_cell b e)
      → Agree a b
      → Agree d e
      → Agree (pair p) (pair q)
  pairs-Agree {p} {q} hp hq cars cdrs =
      let chain = pairs-chain hp hq cars cdrs in
      record { kind = refl; hash = mhash_pair p q chain; chain = chain }

  -- Of values that are no pairs the chain is a fault, and the hash is that of the objects.
  no_pairs-Agree :
      (a b : Mobj)
      → mpairp a ≡ false
      → mpairp b ≡ false
      → ((fuel : ℕ)
          → hash_object double_eq (mhash double_eq fuel) a r
            ≡ hash_object double_eq (mhash double_eq fuel) b r)
      → Agree a b
  no_pairs-Agree a b ha hb same = record { kind = ha ∙ sym hb; hash = hashes; chain = chains }
    where
      hashes : (fuel : ℕ) → mhash double_eq fuel a r ≡ mhash double_eq fuel b r
      hashes zero = unfold mhash in refl
      hashes (suc fuel) = unfold mhash in rw (ha, hb) (same fuel)

      chains : (fuel h : ℕ) → hash_chain double_eq fuel h a r ≡ hash_chain double_eq fuel h b r
      chains zero h = unfold hash_chain in refl
      chains (suc fuel) h = unfold hash_chain in rw (mcar_none a r ha, mcar_none b r hb)

  hash_object_vector :
      (hash : Mobj → Cmd ℕ) (p : ℕ) {xs : List Mobj}
      → r.heap p ≡ some (slots vector xs)
      → hash_object double_eq hash (typed p) r
        ≡ hash_slots hash (mix 0xC2B2AE3D27D4EB4F (length xs)) xs r
  unfolding hash_object hash_vector
  hash_object_vector hash p e = ground arith

  vectors-Agree :
      {p q : ℕ} {xs ys : List Mobj}
      → r.heap p ≡ some (slots vector xs)
      → r.heap q ≡ some (slots vector ys)
      → AgreeAll xs ys
      → Agree (typed p) (typed q)
  vectors-Agree {p} {q} {xs} {ys} hp hq all = no_pairs-Agree (typed p) (typed q) refl refl λ fuel.
      let hash = mhash double_eq fuel in
      hash_object_vector hash p hp
      ∙ rw all.count (all.hashes fuel _)
      ∙ sym (hash_object_vector hash q hq)

  strings-Agree :
      {p q : ℕ} {bs : List ℕ}
      → r.heap p ≡ some (str bs)
      → r.heap q ≡ some (str bs)
      → Agree (typed p) (typed q)
  unfolding hash_object hash_string mstring_bytes
  strings-Agree {p} {q} hp hq = no_pairs-Agree (typed p) (typed q) refl refl λ fuel. ground arith

  module _
      (equal_bits : (x y : ℕ)
        → double_eq x y ≡ true
        → (x ≡ y) ⊎ ((double_eq x 0 ≡ true) × (double_eq y 0 ≡ true))) where
    canonical-eq : (x y : ℕ) → double_eq x y ≡ true → canonical double_eq x ≡ canonical double_eq y
    unfolding canonical
    canonical-eq x y h = ground (arith, equal_bits x y h)

    doubles-Agree :
        {p q x y : ℕ}
        → r.heap p ≡ some (double x)
        → r.heap q ≡ some (double y)
        → double_eq x y ≡ true
        → Agree (flonum p) (flonum q)
    unfolding hash_object hash_leaf mflonum_val
    doubles-Agree {p} {q} {x} {y} hp hq same =
        no_pairs-Agree (flonum p) (flonum q) refl refl λ fuel. ground (arith, canonical-eq x y same)

    mutual
      Same-Agree : {a b : Mobj} → Same double_eq r a b → Agree a b
      Same-Agree (word {a} e) = subst (λ b. Agree a b) e (Agree-refl a)
      Same-Agree (pairs hp hq cars cdrs) = pairs-Agree hp hq (Same-Agree cars) (Same-Agree cdrs)
      Same-Agree (vectors hp hq all) = vectors-Agree hp hq (SameAll-AgreeAll all)
      Same-Agree (strings hp hq) = strings-Agree hp hq
      Same-Agree (doubles hp hq e) = doubles-Agree hp hq e

      SameAll-AgreeAll : {xs ys : List Mobj} → SameAll double_eq r xs ys → AgreeAll xs ys
      SameAll-AgreeAll nil = record { count = refl; hashes = λ fuel h. refl }
      SameAll-AgreeAll (cons same all) = cons-AgreeAll (Same-Agree same) (SameAll-AgreeAll all)

-- When `Mequal` answers `true` on two values, `Mhash` runs alike on both at every fuel, so equal values
-- have one hash; it asks of the comparison of doubles that doubles that compare equal have the same
-- bits or both compare equal to zero.
pub mhash-mequal :
    (double_eq : ℕ → ℕ → Bool)
    → ((x y : ℕ)
        → double_eq x y ≡ true
        → (x ≡ y) ⊎ ((double_eq x 0 ≡ true) × (double_eq y 0 ≡ true)))
    → (fuel fuel' : ℕ) (a b : Mobj) (r : Runtime) {t : Runtime}
    → mequal double_eq fuel a b r ≡ ok true t
    → mhash double_eq fuel' a r ≡ mhash double_eq fuel' b r
mhash-mequal double_eq equal_bits fuel fuel' a b r {t} h =
    (Same-Agree double_eq r equal_bits (mequal-Sound double_eq r fuel a b t h).0).hash fuel'
