-- ===== src/Gc/Bytes.antt =====
-- src/gc.c: lists of old objects, and the bytes of those that have not been moved.
use minim.Base.{
  ◌+◌, ◌≤◌, ◌≡◌, ◌≢◌, inl, inr, refl, sym, ap, ◌∙◌, some, List, [], ◌∷◌, arith, NotIn, Distinct,
}
use minim.Object.{Addr, Mobj, Object, object_size}
use minim.Gc.{
  Tag, tag_pair, tag_flonum, tag_symbol, tag_closure, tag_typed, live, forwarded, with_tag,
}
use minim.Gc.Invariant.{Memory, In, cell_bytes, unmoved}

pub NotIn-In : (p q : Addr) (ps : List Addr) → NotIn p ps → In q ps → p ≢ q
NotIn-In p q [] h k = absurd k
NotIn-In p q (x ∷ ps) (h, hs) (inl e) = λ same. h (same ∙ e)
NotIn-In p q (x ∷ ps) (h, hs) (inr k) = NotIn-In p q ps hs k

pub unmoved_lb :
    (m : Memory) (p : Addr) (o : Object) (ps : List Addr)
    → In p ps
    → m p ≡ some (live o)
    → object_size o ≤ unmoved m ps
unmoved_lb m p o [] k e = absurd k
unmoved_lb m p o (x ∷ ps) (inl same) e =
    let size : cell_bytes (m x) ≡ object_size o = ap cell_bytes (ap m (sym same) ∙ e) in omega arith
unmoved_lb m p o (x ∷ ps) (inr k) e = omega (arith, unmoved_lb m p o ps k e)

pub unmoved_same :
    (m m' : Memory) (ps : List Addr)
    → ((q : Addr) → In q ps → m' q ≡ m q)
    → unmoved m' ps ≡ unmoved m ps
unmoved_same m m' [] h = refl
unmoved_same m m' (x ∷ ps) h =
    let one = ap cell_bytes (h x (inl refl)) in
    let rest = unmoved_same m m' ps (λ q k. h q (inr k)) in omega arith

-- One object fewer is to be moved.
pub unmoved_less :
    (m m' : Memory) (p : Addr) (o : Object) (w : Mobj) (ps : List Addr)
    → Distinct ps
    → In p ps
    → m p ≡ some (live o)
    → m' p ≡ some (forwarded w)
    → ((q : Addr) → In q ps → p ≢ q → m' q ≡ m q)
    → unmoved m' ps + object_size o ≡ unmoved m ps
unmoved_less m m' p o w [] d k e e' h = absurd k
unmoved_less m m' p o w (x ∷ ps) (d, ds) (inl same) e e' h =
    let before : cell_bytes (m x) ≡ object_size o = ap cell_bytes (ap m (sym same) ∙ e) in
    let now : cell_bytes (m' x) ≡ 0 = ap cell_bytes (ap m' (sym same) ∙ e') in
    let rest =
      unmoved_same m m' ps (λ q k. h q (inr k) (λ eq. NotIn-In x q ps d k (sym same ∙ eq))) in
    omega arith
unmoved_less m m' p o w (x ∷ ps) (d, ds) (inr k) e e' h =
    let one = ap cell_bytes (h x (inl refl) (λ eq. NotIn-In x p ps d k (sym eq))) in
    let rest = unmoved_less m m' p o w ps ds k e e' (λ q kq. h q (inr kq)) in omega arith

pub with_tag_inj : (t : Tag) (p q : Addr) → with_tag t p ≡ with_tag t q → p ≡ q
with_tag_inj tag_pair p q e = cc
with_tag_inj tag_flonum p q e = cc
with_tag_inj tag_symbol p q e = cc
with_tag_inj tag_closure p q e = cc
with_tag_inj tag_typed p q e = cc
