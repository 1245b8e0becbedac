-- ===== src/Equal/Reads.antt =====
-- src/equal.c: runs that only read, and the commands that do.
use mathlib.Core.Path.{subst}
use minim.Base.{ℕ, ◌≡◌, refl, sym, Bool, true, false, List, [], ◌∷◌, arith, if◌then◌else◌}
use minim.Object.{Mobj, mpairp}
use minim.Runtime.{
  Runtime, Run, Cmd, ok, error, fault, out_of_fuel, and_then, mcar, mcdr, mvectorp, mstringp,
  typed_slots,
}
use minim.Runtime.Bind.{and_then-ok, mcar-ok, mcdr-ok, typed_slots-ok}
use minim.Equal.{mflonum_val, mstring_bytes, mix, hash_slots, hash_string, hash_leaf}

-- A run from `r` that leaves the state as it is, if it returns.
abbrev pub Reads {ℓ} : {A : Type ℓ} → Runtime → Run A → Type ℓ
Reads {A} r m = (a : A) (s : Runtime) → m ≡ ok a s → s ≡ r

pub and_then-agree {ℓ κ} :
    {A : Type ℓ} {B : Type κ} (r : Runtime) (m : Run A) (k k' : A → Cmd B)
    → Reads r m
    → ((a : A) → k a r ≡ k' a r)
    → and_then m k ≡ and_then m k'
and_then-agree r (ok a s) k k' reads h = subst (λ u. k a u ≡ k' a u) (sym (reads a s refl)) (h a)
and_then-agree r (error e s) k k' reads h = refl
and_then-agree r fault k k' reads h = refl
and_then-agree r out_of_fuel k k' reads h = refl

pub Reads-and_then {ℓ κ} :
    {A : Type ℓ} {B : Type κ} (r : Runtime) (m : Run A) (k : A → Cmd B)
    → Reads r m
    → ((a : A) → Reads r (k a r))
    → Reads r (and_then m k)
Reads-and_then r m k reads h b t e =
    let (a, s, e₁, e₂) = and_then-ok m k e in
    h a b t (subst (λ u. k a u ≡ ok b t) (reads a s e₁) e₂)

pub Reads-if {ℓ} :
    {A : Type ℓ} (r : Runtime) (b : Bool) (m n : Cmd A)
    → Reads r (m r)
    → Reads r (n r)
    → Reads r ((if b then m else n) r)
Reads-if r true m n hm hn = hm
Reads-if r false m n hm hn = hn

pub if_both {ℓ} :
    {A : Type ℓ} (r : Runtime) (b : Bool) (m m' n n' : Cmd A)
    → m r ≡ m' r
    → n r ≡ n' r
    → (if b then m else n) r ≡ (if b then m' else n') r
if_both r true m m' n n' hm hn = hm
if_both r false m m' n n' hm hn = hn

pub mcar_none : (v : Mobj) (r : Runtime) → mpairp v ≡ false → mcar v r ≡ fault
unfolding mcar
mcar_none v r h = ground arith

pub mcar-Reads : (v : Mobj) (r : Runtime) → Reads r (mcar v r)
mcar-Reads v r a s e = (mcar-ok v e).4

pub mcdr-Reads : (v : Mobj) (r : Runtime) → Reads r (mcdr v r)
mcdr-Reads v r a s e = (mcdr-ok v e).4

pub hash_slots-Reads :
    (hash : Mobj → Cmd ℕ) (r : Runtime)
    → ((v : Mobj) → Reads r (hash v r))
    → (h : ℕ) (xs : List Mobj) → Reads r (hash_slots hash h xs r)
unfolding hash_slots
hash_slots-Reads hash r reads h [] = λ a s e. cc
hash_slots-Reads hash r reads h (x ∷ xs) =
    Reads-and_then r (hash x r) (λ k. hash_slots hash (mix h k) xs) (reads x)
      (λ k. hash_slots-Reads hash r reads (mix h k) xs)

pub leaf_or_string-Reads :
    (double_eq : ℕ → ℕ → Bool) (v : Mobj) (r : Runtime) (b : Bool)
    → Reads r ((if b then hash_string v else hash_leaf double_eq v) r)
unfolding hash_string hash_leaf mstring_bytes mflonum_val
leaf_or_string-Reads double_eq v r b a s e = ground arith

pub mvectorp-Reads : (v : Mobj) (r : Runtime) → Reads r (mvectorp v r)
unfolding mvectorp
mvectorp-Reads v r a s e = ground arith

pub mstringp-Reads : (v : Mobj) (r : Runtime) → Reads r (mstringp v r)
unfolding mstringp
mstringp-Reads v r a s e = ground arith

pub typed_slots-Reads : (v : Mobj) (r : Runtime) → Reads r (typed_slots v r)
typed_slots-Reads v r a s e = (typed_slots-ok v e).4
