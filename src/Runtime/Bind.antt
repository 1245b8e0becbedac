-- ===== src/Runtime/Bind.antt =====
-- Inversion of a sequence that returns, and of the reads that it is made of.
use minim.Base.{ℕ, ◌≡◌, refl, some, List, arith}
use minim.Object.{Mobj, pair, typed, cons_cell, slots, Sec}
use minim.Runtime.{
  Runtime, Run, Cmd, ok, error, fault, out_of_fuel, and_then, mcar, mcdr, typed_slots,
}

pub and_then-ok {ℓ κ} :
    {A : Type ℓ} {B : Type κ} (m : Run A) (k : A → Cmd B) {b : B} {t : Runtime}
    → and_then m k ≡ ok b t
    → (a : A) × (s : Runtime) × (m ≡ ok a s) × (k a s ≡ ok b t)
and_then-ok (ok a s) k h = (a, s, refl, h)
and_then-ok (error e s) k h = cc
and_then-ok fault k h = cc
and_then-ok out_of_fuel k h = cc

pub mcar-ok :
    (v : Mobj) {r t : Runtime} {x : Mobj}
    → mcar v r ≡ ok x t
    → (p : ℕ) × (d : Mobj) × (v ≡ pair p) × (r.heap p ≡ some (cons_cell x d)) × (t ≡ r)
unfolding mcar
mcar-ok v h = ground arith

pub mcdr-ok :
    (v : Mobj) {r t : Runtime} {x : Mobj}
    → mcdr v r ≡ ok x t
    → (p : ℕ) × (a : Mobj) × (v ≡ pair p) × (r.heap p ≡ some (cons_cell a x)) × (t ≡ r)
unfolding mcdr
mcdr-ok v h = ground arith

pub typed_slots-ok :
    (v : Mobj) {r t : Runtime} {xs : List Mobj}
    → typed_slots v r ≡ ok xs t
    → (p : ℕ) × (sec : Sec) × (v ≡ typed p) × (r.heap p ≡ some (slots sec xs)) × (t ≡ r)
unfolding typed_slots
typed_slots-ok v h = ground arith

module _ (r : Runtime) (p : ℕ) {a d : Mobj} (e : r.heap p ≡ some (cons_cell a d)) where
  pub mcar-at : mcar (pair p) r ≡ ok a r
  unfolding mcar
  mcar-at = ground arith

  pub mcdr-at : mcdr (pair p) r ≡ ok d r
  unfolding mcdr
  mcdr-at = ground arith
