-- ===== src/Prims/Table.antt =====
-- The table of the primitives: `Mprim` of src/alloc.c, `prim_fn_register`, `prim_register` and
-- `eval_init` of src/eval.c, `prims_register_all` of src/prims.c and `Minit` of src/system.c.
use minim.Base.{ℕ, ◌-◌, ◌^◌, List, [], ◌∷◌, ◌++◌, length, codes}
use minim.Object.{Mobj, mnull, prim, mfixnum}
use minim.Runtime.{
  PrimFn, pair_p, null_p, symbol_p, boolean_p, number_p, procedure_p, vector_p, string_p, char_p,
  eof_object_p, prim_cons, prim_car, prim_cdr, prim_list, make_vector, prim_vector, vector_ref,
  vector_set, vector_length, make_string, prim_string, string_copy, string_ref, string_set,
  string_length, prim_add, prim_sub, prim_mul, num_eq, prim_lt, prim_gt, prim_le, prim_ge, quotient,
  remainder, zero_p, positive_p, negative_p, prim_abs, exact_to_inexact, prim_eq, prim_eqv,
  prim_equal, prim_hash, prim_error, Cmd, ok, pure, ◌>>=◌, ◌>>◌, mcar, mtyped_obj_ref,
  mtyped_obj_set, set_expr, set_env, set_kont,
}
use minim.Alloc.{typed_alloc}
use minim.Symbol.{mintern, symbol_init}
use minim.Equal.{mhash}
use minim.Eval.Env.{top_env_define, set_top_level_env}
use minim.Prims.{Doubles}
use minim.Prims.Lists
use minim.Prims.Numbers

-- The index of the function; the capacity doubles as needed.
unfoldable pub prim_fn_register : PrimFn → Cmd ℕ
prim_fn_register fn r =
    ok (length r.prim_fn_table) (record r { prim_fn_table = r.prim_fn_table ++ fn ∷ [] })

unfoldable pub mprim : List ℕ → PrimFn → ℕ → ℕ → Cmd Mobj
mprim name fn arity_min arity_max = do
  name_sym ← mintern name
  idx ← prim_fn_register fn
  v ← typed_alloc 4 prim
  mtyped_obj_set v 0 name_sym
  mtyped_obj_set v 1 (mfixnum arity_min)
  mtyped_obj_set v 2 (mfixnum arity_max)
  mtyped_obj_set v 3 (mfixnum idx)
  pure v

-- The name that is bound is read back from the primitive.
unfoldable pub prim_register : List ℕ → PrimFn → ℕ → ℕ → Cmd (Unit {0})
prim_register name fn arity_min arity_max = do
  p ← mprim name fn arity_min arity_max
  name_sym ← mtyped_obj_ref p 0
  top_env_define name_sym p

-- The arguments of a call of `prim_register`.
pub record Registration : Type 0 where
  pub name : List ℕ
  pub fn : PrimFn
  pub arity_min : ℕ
  pub arity_max : ℕ

abbrev pub register : Registration → Cmd (Unit {0})
register e = prim_register e.name e.fn e.arity_min e.arity_max

unfoldable pub register_all : List Registration → Cmd (Unit {0})
register_all [] = pure tt
register_all (e ∷ es) = let rest = register_all es in register e >> rest

-- The maximum -1 of a procedure that takes any number of arguments.
abbrev pub variadic : ℕ
variadic = 2 ^ 64 - 1

abbrev entry : List ℕ → PrimFn → ℕ → ℕ → Registration
entry name fn low high = record { name = name; fn = fn; arity_min = low; arity_max = high }

abbrev pub registrations : List Registration
registrations =
    entry (codes "pair?") pair_p 1 1
    ∷ entry (codes "null?") null_p 1 1
    ∷ entry (codes "symbol?") symbol_p 1 1
    ∷ entry (codes "boolean?") boolean_p 1 1
    ∷ entry (codes "number?") number_p 1 1
    ∷ entry (codes "procedure?") procedure_p 1 1
    ∷ entry (codes "vector?") vector_p 1 1
    ∷ entry (codes "string?") string_p 1 1
    ∷ entry (codes "char?") char_p 1 1
    ∷ entry (codes "eof-object?") eof_object_p 1 1
    ∷ entry (codes "cons") prim_cons 2 2
    ∷ entry (codes "car") prim_car 1 1
    ∷ entry (codes "cdr") prim_cdr 1 1
    ∷ entry (codes "list") prim_list 0 variadic
    ∷ entry (codes "make-vector") make_vector 1 2
    ∷ entry (codes "vector") prim_vector 0 variadic
    ∷ entry (codes "vector-ref") vector_ref 2 2
    ∷ entry (codes "vector-set!") vector_set 3 3
    ∷ entry (codes "vector-length") vector_length 1 1
    ∷ entry (codes "make-string") make_string 1 2
    ∷ entry (codes "string") prim_string 0 variadic
    ∷ entry (codes "string-copy") string_copy 1 1
    ∷ entry (codes "string-ref") string_ref 2 2
    ∷ entry (codes "string-set!") string_set 3 3
    ∷ entry (codes "string-length") string_length 1 1
    ∷ entry (codes "+") prim_add 0 variadic
    ∷ entry (codes "-") prim_sub 1 variadic
    ∷ entry (codes "*") prim_mul 0 variadic
    ∷ entry (codes "=") num_eq 2 variadic
    ∷ entry (codes "<") prim_lt 2 variadic
    ∷ entry (codes ">") prim_gt 2 variadic
    ∷ entry (codes "<=") prim_le 2 variadic
    ∷ entry (codes ">=") prim_ge 2 variadic
    ∷ entry (codes "quotient") quotient 2 2
    ∷ entry (codes "remainder") remainder 2 2
    ∷ entry (codes "zero?") zero_p 1 1
    ∷ entry (codes "positive?") positive_p 1 1
    ∷ entry (codes "negative?") negative_p 1 1
    ∷ entry (codes "abs") prim_abs 1 1
    ∷ entry (codes "exact->inexact") exact_to_inexact 1 1
    ∷ entry (codes "eq?") prim_eq 2 2
    ∷ entry (codes "eqv?") prim_eqv 2 2
    ∷ entry (codes "equal?") prim_equal 2 2
    ∷ entry (codes "hash") prim_hash 1 1
    ∷ entry (codes "error") prim_error 1 variadic
    ∷ []

unfoldable pub prims_register_all : Cmd (Unit {0})
prims_register_all = register_all registrations

-- The roots that it protects are the fields themselves.
unfoldable pub eval_init : Cmd (Unit {0})
eval_init = do
  set_expr mnull
  set_env mnull
  set_kont mnull
  set_top_level_env mnull
  prims_register_all

-- `Minit` behind `gc_init`.
unfoldable pub minit : Cmd (Unit {0})
minit = do symbol_init; eval_init

module _ (fl : Doubles) (fuel : ℕ) where
  -- The hash as a fixnum, which drops its upper bits.
  unfoldable pub hash_prim : Mobj → Cmd Mobj
  hash_prim args = do h ← mhash fl.eq fuel (← mcar args); pure (mfixnum h)

  -- The C function that each name of PrimFn stands for; `fuel` is for Mequal and Mhash.
  unfoldable pub call_prim : PrimFn → Mobj → Cmd Mobj
  call_prim pair_p = Lists.prim_pair_p
  call_prim null_p = Lists.prim_null_p
  call_prim symbol_p = Lists.prim_symbol_p
  call_prim boolean_p = Lists.prim_boolean_p
  call_prim number_p = Lists.prim_number_p
  call_prim procedure_p = Lists.prim_procedure_p
  call_prim vector_p = Lists.prim_vector_p
  call_prim string_p = Lists.prim_string_p
  call_prim char_p = Lists.prim_char_p
  call_prim eof_object_p = Lists.prim_eof_object_p
  call_prim prim_cons = Lists.prim_cons
  call_prim prim_car = Lists.prim_car
  call_prim prim_cdr = Lists.prim_cdr
  call_prim prim_list = Lists.prim_list
  call_prim make_vector = Lists.prim_make_vector
  call_prim prim_vector = Lists.prim_vector
  call_prim vector_ref = Lists.prim_vector_ref
  call_prim vector_set = Lists.prim_vector_set
  call_prim vector_length = Lists.prim_vector_length
  call_prim make_string = Lists.prim_make_string
  call_prim prim_string = Lists.prim_string
  call_prim string_copy = Lists.prim_string_copy
  call_prim string_ref = Lists.prim_string_ref
  call_prim string_set = Lists.prim_string_set
  call_prim string_length = Lists.prim_string_length
  call_prim prim_add = Numbers.prim_add fl
  call_prim prim_sub = Numbers.prim_sub fl
  call_prim prim_mul = Numbers.prim_mul fl
  call_prim num_eq = Numbers.prim_num_eq fl
  call_prim prim_lt = Numbers.prim_lt fl
  call_prim prim_gt = Numbers.prim_gt fl
  call_prim prim_le = Numbers.prim_le fl
  call_prim prim_ge = Numbers.prim_ge fl
  call_prim quotient = Numbers.prim_quotient
  call_prim remainder = Numbers.prim_remainder
  call_prim zero_p = Numbers.prim_zero_p fl
  call_prim positive_p = Numbers.prim_positive_p fl
  call_prim negative_p = Numbers.prim_negative_p fl
  call_prim prim_abs = Numbers.prim_abs fl
  call_prim exact_to_inexact = Numbers.prim_exact_to_inexact fl
  call_prim prim_eq = Lists.prim_eq
  call_prim prim_eqv = Lists.prim_eqv fl.eq
  call_prim prim_equal = Lists.prim_equal fl.eq fuel
  call_prim prim_hash = hash_prim
  call_prim prim_error = Lists.prim_error
