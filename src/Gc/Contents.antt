-- ===== src/Gc/Contents.antt =====
-- src/gc.c: the addresses of the copies, and what a copy has in common with its object.
use minim.Base.{suc, ◌≡◌, ◌≢◌, inl, inr, refl, ap, some, none, Option, List, [], ◌∷◌, NotIn, length}
use minim.Object.{Addr, Mobj, Object, object_size, cons_cell, double, name, lambda, slots, str}
use minim.Gc.{Tag, Cell, forwarded, heap_pointer, object_tag, fields, with_fields}
use minim.Gc.Invariant.{Memory, In, AllForwarded, nil, cons}

-- The new address that a marker holds.
abbrev image_of : Option (Tag × Addr) → Option Addr
image_of none = none
image_of (some (t, q)) = some q

abbrev pub image : Option Cell → Option Addr
image (some (forwarded w)) = image_of (heap_pointer w)
image _ = none

abbrev pub prepend : Option Addr → List Addr → List Addr
prepend none qs = qs
prepend (some q) qs = q ∷ qs

abbrev pub images : Memory → List Addr → List Addr
images m [] = []
images m (p ∷ ps) = prepend (image (m p)) (images m ps)

pub In-prepend : (q : Addr) (i : Option Addr) (qs : List Addr) → In q qs → In q (prepend i qs)
In-prepend q none qs k = k
In-prepend q (some q') qs k = inr k

pub NotIn-else : (p : Addr) (qs : List Addr) → ((q : Addr) → In q qs → p ≢ q) → NotIn p qs
NotIn-else p [] differ = tt
NotIn-else p (q ∷ qs) differ = (differ q (inl refl), NotIn-else p qs (λ q' k. differ q' (inr k)))

pub length-AllForwarded :
    {m : Memory} {ps : List Addr} {xs ys : List Mobj}
    → AllForwarded m ps xs ys
    → length ys ≡ length xs
length-AllForwarded nil = refl
length-AllForwarded (cons f fs) = ap suc (length-AllForwarded fs)

pub object_tag-with_fields :
    (o : Object) (ys : List Mobj) → object_tag (with_fields o ys) ≡ object_tag o
object_tag-with_fields (cons_cell a d) [] = refl
object_tag-with_fields (cons_cell a d) (x ∷ []) = refl
object_tag-with_fields (cons_cell a d) (x ∷ y ∷ ys) = refl
object_tag-with_fields (double d) ys = refl
object_tag-with_fields (name s) ys = refl
object_tag-with_fields (lambda p b e n) [] = refl
object_tag-with_fields (lambda p b e n) (x ∷ []) = refl
object_tag-with_fields (lambda p b e n) (x ∷ y ∷ []) = refl
object_tag-with_fields (lambda p b e n) (x ∷ y ∷ z ∷ []) = refl
object_tag-with_fields (lambda p b e n) (x ∷ y ∷ z ∷ w ∷ ys) = refl
object_tag-with_fields (slots sec xs) ys = refl
object_tag-with_fields (str bs) ys = refl

pub object_size-with_fields :
    {m : Memory} {ps : List Addr} (o : Object) {ys : List Mobj}
    → AllForwarded m ps (fields o) ys
    → object_size (with_fields o ys) ≡ object_size o
unfolding object_size
object_size-with_fields (cons_cell a d) (cons f (cons f' nil)) = refl
object_size-with_fields (double d) nil = refl
object_size-with_fields (name s) nil = refl
object_size-with_fields (lambda p b e n) (cons f (cons f1 (cons f2 (cons f3 nil)))) = refl
object_size-with_fields (slots sec xs) all = rw (length-AllForwarded all) refl
object_size-with_fields (str bs) nil = refl
