-- ===== src/Prims/Lists.antt =====
-- src/prims.c: type predicates, pairs, vectors, strings, equality and errors.
use minim.Base.{
  ℕ, suc, ◌%◌, ◌^◌, Bool, true, false, ◌||◌, List, ltb, if◌then◌else◌, get_elem?, set, length, none,
  some,
}
use minim.Object.{
  Addr, Mobj, char, typed, mfalse, mtrue, mvoid, meof, mpairp, mnullp, msymbolp, mbooleanp,
  mfixnump, mflonump, mcharp, mclosurep, ◌=?◌, Object, str, mfixnum,
}
use minim.Runtime.{
  Cmd, ok, fault, pure, merror, raised, load, of_option, write, ◌>>=◌, ◌>>◌, mcar, mcdr, mvectorp,
  mstringp, mprimp, mkontp, mtyped_obj_ref, mtyped_obj_set, mvector_length,
}
use minim.Alloc.{mcons, mvector, mstring}
use minim.Equal.{mflonum_val, mstring_bytes, mequal}
use minim.Eval.Apply.{mfixnum_val}
use minim.Prims.{mboolean, second, third, walk}

-- A predicate on the value of the first argument.
abbrev on_first : (Mobj → Bool) → Mobj → Cmd Mobj
on_first p args = do v ← mcar args; pure (mboolean (p v))

unfoldable pub prim_pair_p : Mobj → Cmd Mobj
prim_pair_p args = on_first mpairp args

unfoldable pub prim_null_p : Mobj → Cmd Mobj
prim_null_p args = on_first mnullp args

unfoldable pub prim_symbol_p : Mobj → Cmd Mobj
prim_symbol_p args = on_first msymbolp args

unfoldable pub prim_boolean_p : Mobj → Cmd Mobj
prim_boolean_p args = on_first mbooleanp args

unfoldable pub prim_number_p : Mobj → Cmd Mobj
prim_number_p args = on_first (λ v. mfixnump v || mflonump v) args

unfoldable pub prim_char_p : Mobj → Cmd Mobj
prim_char_p args = on_first mcharp args

abbrev pub meofp : Mobj → Bool
meofp meof = true
meofp _ = false

unfoldable pub prim_eof_object_p : Mobj → Cmd Mobj
prim_eof_object_p args = on_first meofp args

unfoldable pub prim_vector_p : Mobj → Cmd Mobj
prim_vector_p args = do b ← mvectorp (← mcar args); pure (mboolean b)

unfoldable pub prim_string_p : Mobj → Cmd Mobj
prim_string_p args = do b ← mstringp (← mcar args); pure (mboolean b)

-- `Mclosurep(v) || Mprimp(v) || Mkontp(v)`.
unfoldable pub mprocedurep : Mobj → Cmd Bool
mprocedurep v =
    if mclosurep v
    then pure true
    else mprimp v >>= λ is_prim. if is_prim then pure true else mkontp v

unfoldable pub prim_procedure_p : Mobj → Cmd Mobj
prim_procedure_p args = do b ← mprocedurep (← mcar args); pure (mboolean b)

unfoldable pub prim_cons : Mobj → Cmd Mobj
prim_cons args = do a ← mcar args; d ← second args; mcons a d

unfoldable pub prim_car : Mobj → Cmd Mobj
prim_car args = do mcar (← mcar args)

unfoldable pub prim_cdr : Mobj → Cmd Mobj
prim_cdr args = do mcdr (← mcar args)

unfoldable pub prim_list : Mobj → Cmd Mobj
prim_list args = pure args

-- A length past MINIM_VECTOR_MAX_LENGTH, as of a negative number, fits in no space.
abbrev sized : ℕ → Cmd Mobj → Cmd Mobj
sized n make r = if ltb n (2 ^ 60) then make r else fault

unfoldable pub prim_make_vector : Mobj → Cmd Mobj
prim_make_vector args = do
  n ← mfixnum_val (← mcar args)
  rest ← mcdr args
  fill ← if mpairp rest then mcar rest else pure mvoid
  sized n (mvector n fill)

-- The number of the arguments.
unfoldable pub count_args : Mobj → Cmd ℕ
count_args args = walk (λ (n : ℕ) (a : Mobj). pure (suc n)) 0 args

unfoldable pub prim_vector : Mobj → Cmd Mobj
prim_vector args = do
  n ← count_args args
  v ← mvector n mfalse
  i ← walk (λ (i : ℕ) (a : Mobj). mtyped_obj_set v i a >> pure (suc i)) 0 args
  pure v

unfoldable pub prim_vector_ref : Mobj → Cmd Mobj
prim_vector_ref args = do v ← mcar args; i ← mfixnum_val (← second args); mtyped_obj_ref v i

unfoldable pub prim_vector_set : Mobj → Cmd Mobj
prim_vector_set args = do
  v ← mcar args
  i ← mfixnum_val (← second args)
  x ← third args
  mtyped_obj_set v i x
  pure mvoid

unfoldable pub prim_vector_length : Mobj → Cmd Mobj
prim_vector_length args = do n ← mvector_length (← mcar args); pure (mfixnum n)

unfoldable pub mstring_length : Mobj → Cmd ℕ
mstring_length v = do bytes ← mstring_bytes v; pure (length bytes)

unfoldable pub mstring_ref : Mobj → ℕ → Cmd ℕ
mstring_ref v i = do bytes ← mstring_bytes v; of_option (get_elem? bytes i)

abbrev set_byte_of : Addr → ℕ → ℕ → Object → Cmd (Unit {0})
set_byte_of p i c (str bs) r = elim (get_elem? bs i) [
  | none ↦ fault
  | some _ ↦ ok tt (write r p (str (set bs i (c % 2 ^ 8))))
]
set_byte_of p i c _ r = fault

-- The code point is cut to one byte.
unfoldable pub mstring_set : Mobj → ℕ → ℕ → Cmd (Unit {0})
mstring_set (typed p) i c = do set_byte_of p i c (← load p)
mstring_set _ i c = λ r. fault

unfoldable pub mchar_val : Mobj → Cmd ℕ
mchar_val (char c) = pure c
mchar_val _ = λ r. fault

unfoldable pub prim_string_length : Mobj → Cmd Mobj
prim_string_length args = do n ← mstring_length (← mcar args); pure (mfixnum n)

unfoldable pub prim_make_string : Mobj → Cmd Mobj
prim_make_string args = do
  n ← mfixnum_val (← mcar args)
  rest ← mcdr args
  fill ← if mpairp rest then mcar rest >>= mchar_val else pure 32
  sized n (mstring n fill)

unfoldable pub prim_string : Mobj → Cmd Mobj
prim_string args = do
  n ← count_args args
  s ← mstring n 0
  i ← walk (λ (i : ℕ) (a : Mobj). mchar_val a >>= λ c. mstring_set s i c >> pure (suc i)) 0 args
  pure s

-- `memcpy` of the source's bytes into the fresh string.
abbrev copy_bytes : Mobj → List ℕ → Cmd (Unit {0})
copy_bytes (typed p) bytes r = ok tt (write r p (str bytes))
copy_bytes _ bytes r = fault

unfoldable pub prim_string_copy : Mobj → Cmd Mobj
prim_string_copy args = do
  len ← mstring_length (← mcar args)
  dst ← mstring len 0
  bytes ← mstring_bytes (← mcar args)
  copy_bytes dst bytes
  pure dst

unfoldable pub prim_string_ref : Mobj → Cmd Mobj
prim_string_ref args = do
  s ← mcar args
  i ← mfixnum_val (← second args)
  c ← mstring_ref s i
  pure (char c)

unfoldable pub prim_string_set : Mobj → Cmd Mobj
prim_string_set args = do
  s ← mcar args
  i ← mfixnum_val (← second args)
  c ← mchar_val (← third args)
  mstring_set s i c
  pure mvoid

unfoldable pub prim_eq : Mobj → Cmd Mobj
prim_eq args = do a ← mcar args; b ← second args; pure (mboolean (a =? b))

module _ (double_eq : ℕ → ℕ → Bool) where
  unfoldable pub prim_eqv : Mobj → Cmd Mobj
  prim_eqv args = do
    a ← mcar args
    b ← second args
    if a =? b
        then pure mtrue
        else if mflonump a
        then (if mflonump b
            then (do x ← mflonum_val a; y ← mflonum_val b; pure (mboolean (double_eq x y)))
            else pure mfalse)
        else pure mfalse

  unfoldable pub prim_equal : ℕ → Mobj → Cmd Mobj
  prim_equal fuel args = do
    a ← mcar args
    b ← second args
    same ← mequal double_eq fuel a b
    pure (mboolean same)

-- The message and the irritants go to the standard error, then control leaves.
unfoldable pub prim_error : Mobj → Cmd Mobj
prim_error args = do
  message ← mcar args
  irritants ← mcdr args
  walk (λ (u : Unit {0}) (a : Mobj). pure tt) tt irritants
  merror raised
