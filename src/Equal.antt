-- ===== src/Equal.antt =====
-- src/equal.c: structural equality and the hash. Both walk the heap on fuel: on
-- a circular structure the program does not stop. A double is its 64 bits, and `double_eq` is the
-- comparison `==` of doubles.
pub mod Same
pub mod Reads
pub mod Hash
use Prim.Native.Nat.{bit_xor}
use minim.Base.{
  ℕ, zero, suc, ◌*◌, ◌/◌, ◌%◌, ◌^◌, Bool, true, false, not, ◌&&◌, List, [], ◌∷◌, ◌==◌,
  if◌then◌else◌, length,
}
use minim.Object.{Mobj, ◌=?◌, mpairp, mflonump, str, double, typed, flonum, Object}
use minim.Word.{encode}
use minim.Symbol.{bytes_eq}
use minim.Runtime.{
  Cmd, ok, fault, out_of_fuel, pure, load, ◌>>=◌, mcar, mcdr, mvectorp, mstringp, typed_slots,
}

abbrev double_of : Object → Cmd ℕ
double_of (double d) r = ok d r
double_of _ r = fault

unfoldable pub mflonum_val : Mobj → Cmd ℕ
mflonum_val (flonum p) = do double_of (← load p)
mflonum_val _ = λ r. fault

abbrev bytes_of : Object → Cmd (List ℕ)
bytes_of (str bs) r = ok bs r
bytes_of _ r = fault

-- Mstring_length bytes from Mstring_bytes.
unfoldable pub mstring_bytes : Mobj → Cmd (List ℕ)
mstring_bytes (typed p) = do bytes_of (← load p)
mstring_bytes _ = λ r. fault

-- `p(a) && p(b)`.
abbrev pub both : (Mobj → Cmd Bool) → Mobj → Mobj → Cmd Bool
both p a b = p a >>= λ x. if x then p b else pure false

-- The loop over the slots of two vectors of one length, with the comparison of two values.
unfoldable pub slots_equal : (Mobj → Mobj → Cmd Bool) → List Mobj → List Mobj → Cmd Bool
slots_equal eq [] ys = pure true
slots_equal eq (x ∷ xs) [] = λ r. fault
slots_equal eq (x ∷ xs) (y ∷ ys) =
    let rest = slots_equal eq xs ys in eq x y >>= λ same. if same then rest else pure false

unfoldable pub strings_equal : Mobj → Mobj → Cmd Bool
unfolding mstring_bytes bytes_eq
strings_equal a b = do
  x ← mstring_bytes a
  y ← mstring_bytes b
  if not (length y == length x) then pure false else pure (bytes_eq x y)

unfoldable pub vectors_equal : (Mobj → Mobj → Cmd Bool) → Mobj → Mobj → Cmd Bool
unfolding typed_slots slots_equal
vectors_equal eq a b = do
  xs ← typed_slots a
  ys ← typed_slots b
  if not (length ys == length xs) then pure false else slots_equal eq xs ys

-- `a = Mcdr(a); b = Mcdr(b); continue;`.
unfoldable pub cdrs_equal : (Mobj → Mobj → Cmd Bool) → Mobj → Mobj → Cmd Bool
unfolding mcdr
cdrs_equal eq a b = do x ← mcdr a; y ← mcdr b; eq x y

-- The car by a call, then the cdr by the loop.
unfoldable pub pairs_equal : (Mobj → Mobj → Cmd Bool) → Mobj → Mobj → Cmd Bool
unfolding mcar cdrs_equal
pairs_equal eq a b = do
  x ← mcar a
  y ← mcar b
  same ← eq x y
  if not same then pure false else cdrs_equal eq a b

-- splitmix64's mixer.
unfoldable pub mix : ℕ → ℕ → ℕ
mix h v = let m = bit_xor h v * 0x9E3779B97F4A7C15 % 2 ^ 64 in bit_xor m (m / 2 ^ 31)

unfoldable pub hash_slots : (Mobj → Cmd ℕ) → ℕ → List Mobj → Cmd ℕ
unfolding mix
hash_slots hash h [] = pure h
hash_slots hash h (x ∷ xs) =
    let rest = λ (h' : ℕ). hash_slots hash h' xs in hash x >>= λ k. rest (mix h k)

unfoldable pub hash_bytes : ℕ → List ℕ → ℕ
unfolding mix
hash_bytes h [] = h
hash_bytes h (c ∷ cs) = hash_bytes (mix h c) cs

unfoldable pub hash_vector : (Mobj → Cmd ℕ) → Mobj → Cmd ℕ
unfolding typed_slots mix hash_slots
hash_vector hash v = do xs ← typed_slots v; hash_slots hash (mix 0xC2B2AE3D27D4EB4F (length xs)) xs

unfoldable pub hash_string : Mobj → Cmd ℕ
unfolding mstring_bytes mix hash_bytes
hash_string v = do bs ← mstring_bytes v; pure (hash_bytes (mix 0x84B547B7CCE36F3D (length bs)) bs)

module _ (double_eq : ℕ → ℕ → Bool) where
  unfoldable pub leaves_equal : Mobj → Mobj → Cmd Bool
  unfolding mflonum_val
  leaves_equal a b =
      if mflonump a && mflonump b
      then (do x ← mflonum_val a; y ← mflonum_val b; pure (double_eq x y))
      else pure false

  -- The tests of vectors, strings and doubles, in the order of the source.
  unfoldable pub objects_equal : (Mobj → Mobj → Cmd Bool) → Mobj → Mobj → Cmd Bool
  unfolding vectors_equal strings_equal leaves_equal mvectorp mstringp
  objects_equal eq a b = both mvectorp a b >>= λ vectors.
      if vectors
      then vectors_equal eq a b
      else both mstringp a b >>= λ strings. if strings then strings_equal a b else leaves_equal a b

  unfoldable pub mequal : ℕ → Mobj → Mobj → Cmd Bool
  unfolding pairs_equal objects_equal
  mequal zero a b = λ _. out_of_fuel
  mequal (suc fuel) a b =
      let eq = λ (x y : Mobj). mequal fuel x y in
      if a =? b
      then pure true
      else if mpairp a && mpairp b
      then pairs_equal eq a b
      else objects_equal eq a b

  -- `if (d == 0.0) d = 0.0`, whose bits are 0.
  unfoldable pub canonical : ℕ → ℕ
  canonical d = if double_eq d 0 then 0 else d

  -- A double, or the word of anything else.
  unfoldable pub hash_leaf : Mobj → Cmd ℕ
  unfolding mflonum_val mix canonical
  hash_leaf v =
      if mflonump v
      then (do d ← mflonum_val v; pure (mix 0xBF58476D1CE4E5B9 (canonical d)))
      else pure (mix 0x94D049BB133111EB (encode v))

  -- The tests of vectors and strings, and the leaves.
  unfoldable pub hash_object : (Mobj → Cmd ℕ) → Mobj → Cmd ℕ
  unfolding mvectorp mstringp hash_vector hash_string hash_leaf
  hash_object hash v = mvectorp v >>= λ vec.
      if vec
      then hash_vector hash v
      else mstringp v >>= λ string. if string then hash_string v else hash_leaf v

  unfoldable mutual
    unfolding hash_object

    pub mhash : ℕ → Mobj → Cmd ℕ
    mhash zero v = λ _. out_of_fuel
    mhash (suc fuel) v =
        let hash = λ (x : Mobj). mhash fuel x in
        let chain = hash_chain fuel 0x517CC1B727220A95 v in
        if mpairp v then chain else hash_object hash v

    -- The loop of the pair branch: the cars along the cdrs, and what ends the chain.
    pub hash_chain : ℕ → ℕ → Mobj → Cmd ℕ
    hash_chain zero h v = λ _. out_of_fuel
    hash_chain (suc fuel) h v =
        let hash = λ (x : Mobj). mhash fuel x in
        let next = λ (h' : ℕ) (cdr : Mobj). hash_chain fuel h' cdr in
        mcar v >>= λ car. hash car >>= λ k. mcdr v >>= λ cdr.
        if mpairp cdr then next (mix h k) cdr else hash cdr >>= λ last. pure (mix (mix h k) last)
