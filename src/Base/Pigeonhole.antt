-- ===== src/Base/Pigeonhole.antt =====
-- Distinct numbers below a bound are at most as many as the bound.
use Prim.Native.Nat.{ℕ, zero, suc, ◌<◌, ◌≤◌}
use mathlib.Core.Path.{◌≡◌, refl}
use mathlib.Core.Logic.{◌≢◌, inl, inr}
use mathlib.Core.List.{List, [], ◌∷◌}
use native.Mathlib.Omega.{arith}
use minim.Base.Tests.{Bool-cases, ◌==◌, ==_iff, if◌then◌else◌}
use minim.Base.Lists.{length}

abbrev pub NotIn : ℕ → List ℕ → Type 0
NotIn p [] = Unit {0}
NotIn p (q ∷ qs) = (p ≢ q) × NotIn p qs

abbrev pub Distinct : List ℕ → Type 0
Distinct [] = Unit {0}
Distinct (p ∷ ps) = NotIn p ps × Distinct ps

abbrev pub AllBelow : ℕ → List ℕ → Type 0
AllBelow n [] = Unit {0}
AllBelow n (p ∷ ps) = (p < n) × AllBelow n ps

unfoldable without : ℕ → List ℕ → List ℕ
without a [] = []
without a (p ∷ ps) = if a == p then without a ps else p ∷ without a ps

NotIn-without : (a p : ℕ) (ps : List ℕ) → NotIn p ps → NotIn p (without a ps)
unfolding without
NotIn-without a p [] h = tt
NotIn-without a p (q ∷ qs) h = elim (Bool-cases (a == q)) [
  | inl same ↦ rw same (NotIn-without a p qs h.1)
  | inr differ ↦ rw differ (h.0, NotIn-without a p qs h.1)
]

Distinct-without : (a : ℕ) (ps : List ℕ) → Distinct ps → Distinct (without a ps)
unfolding without
Distinct-without a [] h = tt
Distinct-without a (q ∷ qs) h = elim (Bool-cases (a == q)) [
  | inl same ↦ rw same (Distinct-without a qs h.1)
  | inr differ ↦ rw differ (NotIn-without a q qs h.0, Distinct-without a qs h.1)
]

AllBelow-without : (n : ℕ) (ps : List ℕ) → AllBelow (suc n) ps → AllBelow n (without n ps)
unfolding without
AllBelow-without n [] h = tt
AllBelow-without n (q ∷ qs) h = elim (Bool-cases (n == q)) [
  | inl same ↦ rw same (AllBelow-without n qs h.1)
  | inr differ ↦ rw differ (ground (arith, h), AllBelow-without n qs h.1)
]

length-without_absent : (a : ℕ) (ps : List ℕ) → NotIn a ps → length (without a ps) ≡ length ps
unfolding without
length-without_absent a [] h = refl
length-without_absent a (q ∷ qs) h = elim (Bool-cases (a == q)) [
  | inl same ↦ absurd (h.0 ((==_iff a q).0 same))
  | inr differ ↦ rw differ (omega (arith, length-without_absent a qs h.1))
]

length-without : (a : ℕ) (ps : List ℕ) → Distinct ps → length ps ≤ suc (length (without a ps))
unfolding without
length-without a [] h = omega arith
length-without a (q ∷ qs) h = elim (Bool-cases (a == q)) [
  | inl same ↦
      let e : length (without a qs) ≡ length qs =
        length-without_absent a qs (rw ((==_iff a q).0 same) (h.0)) in
      rw same (omega (arith, e))
  | inr differ ↦ rw differ (omega (arith, length-without a qs h.1))
]

-- As many distinct numbers as a list holds do not all lie below a smaller bound.
pub length-Distinct : (n : ℕ) (ps : List ℕ) → Distinct ps → AllBelow n ps → length ps ≤ n
length-Distinct n [] h b = omega arith
length-Distinct zero (p ∷ ps) h b = absurd (omega (arith, b.0))
length-Distinct (suc n) (p ∷ ps) h b =
    let most = length-without n (p ∷ ps) h in
    let ih =
      length-Distinct n (without n (p ∷ ps)) (Distinct-without n (p ∷ ps) h)
        (AllBelow-without n (p ∷ ps) b) in
    omega (arith, most, ih)
