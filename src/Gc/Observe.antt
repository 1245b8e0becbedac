-- ===== src/Gc/Observe.antt =====
-- src/gc.c: what the program can see of its roots, whatever the addresses are.
use minim.Base.{ℕ, ◌≡◌, refl, sym, ap, ◌∙◌, some, none, Option, List, [], ◌∷◌, length, replicate}
use minim.Object.{Addr, Mobj, mfalse, Object, cons_cell, double, name, lambda, slots, str}
use minim.Gc.{Collector, heap_pointer, object_tag, fields, with_fields}
use minim.Gc.Invariant.{Memory, AllForwarded, leaf, pointer, nil, cons, AllValues, IsHeap}
use minim.Gc.Round.{heap_pointer-with_tag}
use minim.Gc.Collect.{Collected}
use minim.Gc.Graph.{object_at, Forwarded-leaf, Forwarded-Moved, Moved-copy}
use minim.Gc.Contents.{length-AllForwarded}
use minim.Gc.Paths.{
  follow, Agree, neither, both, object_at_leaf, object_at_pointer, follow-Collected,
}

-- A leaf is seen whole, and of a pointer's object its kind, its bytes and the number of its slots.
pub data Sight : Type 0 where
  word : Mobj → Sight
  shell : Object → Sight

abbrev pub shell_of : Object → Object
shell_of o = with_fields o (replicate (length (fields o)) mfalse)

abbrev sight_of : Mobj → Option Object → Sight
sight_of v none = word v
sight_of v (some o) = shell (shell_of o)

abbrev sight_after : Memory → Option Mobj → Option Sight
sight_after m none = none
sight_after m (some v) = some (sight_of v (object_at m v))

-- What stands at the end of a path of slots from a value.
unfoldable pub observe : Memory → Mobj → List ℕ → Option Sight
observe m v path = sight_after m (follow m path v)

-- From each root the same is seen along every path.
pub data SameSight (m m' : Memory) : List Mobj → List Mobj → Type 0 where
  none_left : SameSight m m' [] []
  one_more :
      {v w : Mobj} {vs ws : List Mobj}
      → ((path : List ℕ) → observe m v path ≡ observe m' w path)
      → SameSight m m' vs ws
      → SameSight m m' (v ∷ vs) (w ∷ ws)

SameSight-trans :
    {m m' m'' : Memory} {us vs ws : List Mobj}
    → SameSight m m' us vs
    → SameSight m' m'' vs ws
    → SameSight m m'' us ws
SameSight-trans none_left none_left = none_left
SameSight-trans (one_more e es) (one_more f fs) =
    one_more (λ path. e path ∙ f path) (SameSight-trans es fs)

shell_of-with_fields :
    {m : Memory} {ps : List Addr} (o : Object) {ys : List Mobj}
    → AllForwarded m ps (fields o) ys
    → shell_of (with_fields o ys) ≡ shell_of o
shell_of-with_fields (cons_cell a d) (cons f (cons f' nil)) = refl
shell_of-with_fields (double d) nil = refl
shell_of-with_fields (name s) nil = refl
shell_of-with_fields (lambda p b e n) (cons f (cons f1 (cons f2 (cons f3 nil)))) = refl
shell_of-with_fields (slots sec xs) all =
    ap (λ n. slots sec (replicate n mfalse)) (length-AllForwarded all)
shell_of-with_fields (str bs) nil = refl

module _ {ps : List Addr} {g g' : Collector} (heap : IsHeap g.memory ps)
    (c : Collected ps g g') where
  sight-Agree :
      {x y : Option Mobj}
      → Agree g.memory g'.memory ps x y
      → sight_after g.memory x ≡ sight_after g'.memory y
  sight-Agree neither = refl
  sight-Agree (both {v = v} {w = w} (leaf e) f) =
      let same = Forwarded-leaf e f in
      let e' : heap_pointer w ≡ none = rw (← same) e in
      rw (object_at_leaf g.memory v e, object_at_leaf g'.memory w e') (ap (λ z. some (word z)) same)
  sight-Agree (both {v = v} {w = w} (pointer {p = p} {o = o} e inside old) f) =
      let (q, k, at_q) = Forwarded-Moved c e old f in
      let (ys, copy, all) = Moved-copy heap c k in
      let e' : heap_pointer w ≡ some (object_tag o, q) =
        ap heap_pointer at_q ∙ heap_pointer-with_tag (object_tag o) q in
      rw (object_at_pointer g.memory v e old, object_at_pointer g'.memory w e' copy)
        (ap (λ z. some (shell z)) (sym (shell_of-with_fields o all)))

  pub SameSight-Collected :
      {vs ws : List Mobj}
      → AllForwarded g'.memory ps vs ws
      → AllValues g.memory ps vs
      → SameSight g.memory g'.memory vs ws
  unfolding observe
  SameSight-Collected nil values = none_left
  SameSight-Collected (cons {v = v} {w = w} f fs) (value, values) =
      one_more (λ path. sight-Agree (follow-Collected heap c path v w value f))
        (SameSight-Collected fs values)

-- Nothing can be told from the roots of `g` and of `g'`.
abbrev pub SameRoots : Collector → Collector → Type 0
SameRoots g g' =
    SameSight g.memory g'.memory g.shadow_stack g'.shadow_stack
    × SameSight g.memory g'.memory g.global_roots g'.global_roots

SameSight-refl : (m : Memory) (vs : List Mobj) → SameSight m m vs vs
SameSight-refl m [] = none_left
SameSight-refl m (v ∷ vs) = one_more (λ path. refl) (SameSight-refl m vs)

pub SameRoots-refl : (g : Collector) → SameRoots g g
SameRoots-refl g = (SameSight-refl g.memory g.shadow_stack, SameSight-refl g.memory g.global_roots)

pub SameRoots-trans : (g g' g'' : Collector) → SameRoots g g' → SameRoots g' g'' → SameRoots g g''
SameRoots-trans g g' g'' (s, o) (s', o') = (SameSight-trans s s', SameSight-trans o o')
