-- ===== src/Runtime.antt =====
-- The state of the runtime: include/minim.h's heap accessors and mutators, the globals of src/eval.c
-- and src/symbol.c, and the outcomes of a C function that may raise. A read or write through a value
-- of another tag, through a dangling address or past an object's end is undefined in C: a `fault`.
pub mod Laws
pub mod Bind
use minim.Base.{
  ℕ, Bool, true, false, Option, none, some, List, ◌==◌, if◌then◌else◌, get_elem?, set, length,
}
use minim.ParseError.{ParseError}
use minim.Object.{
  Addr, Mobj, pair, symbol, closure, typed, Sec, vector, kont, env, prim, same_sec, Object,
  cons_cell, name, lambda, slots, str,
}

pub data EvalMode : Type 0 where
  eval_mode apply_mode halt_mode : EvalMode

-- The C functions behind the primitive procedures, one for each static function of src/prims.c.
pub data PrimFn : Type 0 where
  pair_p null_p symbol_p boolean_p number_p procedure_p vector_p string_p char_p eof_object_p :
      PrimFn
  prim_cons prim_car prim_cdr prim_list : PrimFn
  make_vector prim_vector vector_ref vector_set vector_length : PrimFn
  make_string prim_string string_copy string_ref string_set string_length : PrimFn
  prim_add prim_sub prim_mul num_eq prim_lt prim_gt prim_le prim_ge quotient remainder : PrimFn
  zero_p positive_p negative_p prim_abs exact_to_inexact : PrimFn
  prim_eq prim_eqv prim_equal prim_hash prim_error : PrimFn

-- The globals. `heap` and `ap` are the objects and the allocation pointer; `intern_table` has a list
-- of symbols for each bucket.
pub record Runtime : Type 0 where
  pub heap : Addr → Option Object
  pub ap : Addr
  pub intern_table : List (List Mobj)
  pub intern_table_n : ℕ
  pub begin_sym : Mobj
  pub define_sym : Mobj
  pub if_sym : Mobj
  pub lambda_sym : Mobj
  pub let_sym : Mobj
  pub quote_sym : Mobj
  pub set_sym : Mobj
  pub prim_fn_table : List PrimFn
  pub top_level_env : Mobj
  pub mode : EvalMode
  pub eval_expr : Mobj
  pub eval_env : Mobj
  pub eval_kont : Mobj

-- One constructor for each call of Merror in src/eval.c, with the values that its message shows, and
-- one for those of src/read.c.
pub data Error : Type 0 where
  unbound_variable set_unbound : Mobj → Error
  improper_list empty_list malformed_quote malformed_if empty_begin : Error
  malformed_lambda lambda_params lambda_param_name : Error
  internal_define malformed_define define_name malformed_set set_name : Error
  malformed_let let_bindings let_binding let_binding_name : Error
  cannot_evaluate empty_seq_frame closure_empty_body kont_invocation not_a_procedure : Error
  closure_arity : (expected got : ℕ) → Error
  prim_at_least prim_at_most : Mobj → (bound got : ℕ) → Error
  unhandled_kont : Mobj → Error
  raised : Error
  parse_error : ParseError → Error

-- `error` is Merror: control leaves the function and the state stays as it is. `out_of_fuel` has no
-- counterpart: the program's loop goes on.
pub data Run {ℓ} (A : Type ℓ) : Type ℓ where
  ok : A → Runtime → Run A
  error : Error → Runtime → Run A
  fault out_of_fuel : Run A

abbrev pub Cmd {ℓ} : Type ℓ → Type ℓ
Cmd A = Runtime → Run A

module _ {ℓ κ} {A : Type ℓ} {B : Type κ} where
  abbrev pub and_then : Run A → (A → Cmd B) → Run B
  and_then (ok a r) k = k a r
  and_then (error e r) k = error e r
  and_then fault k = fault
  and_then out_of_fuel k = out_of_fuel

  infixl 5 ◌>>=◌
  abbrev pub ◌>>=◌ : Cmd A → (A → Cmd B) → Cmd B
  m >>= k = λ r. and_then (m r) k

infixl 5 ◌>>◌
abbrev pub ◌>>◌ {ℓ} : {B : Type ℓ} → Cmd (Unit {0}) → Cmd B → Cmd B
m >> n = m >>= λ _. n

abbrev pub pure {ℓ} : {A : Type ℓ} → A → Cmd A
pure a r = ok a r

abbrev pub get : Cmd Runtime
get r = ok r r

abbrev pub merror {ℓ} : {A : Type ℓ} → Error → Cmd A
merror e r = error e r

-- `if (test) Merror(...)`.
abbrev pub raise_if : Bool → Error → Cmd (Unit {0})
raise_if b e = if b then merror e else pure tt

abbrev pub update : (Addr → Option Object) → Addr → Object → Addr → Option Object
update h p o q = if p == q then some o else h q

abbrev pub write : Runtime → Addr → Object → Runtime
write r p o = record r { heap = update r.heap p o }

-- The object at an address that is in use.
abbrev pub load : Addr → Cmd Object
load p r = elim (r.heap p) [ none ↦ fault | some o ↦ ok o r ]

abbrev pub store : Addr → Object → Cmd (Unit {0})
store p o r = ok tt (write r p o)

abbrev pub set_mode : EvalMode → Cmd (Unit {0})
set_mode m r = ok tt (record r { mode = m })

abbrev pub set_expr : Mobj → Cmd (Unit {0})
set_expr v r = ok tt (record r { eval_expr = v })

abbrev pub set_env : Mobj → Cmd (Unit {0})
set_env v r = ok tt (record r { eval_env = v })

abbrev pub set_kont : Mobj → Cmd (Unit {0})
set_kont v r = ok tt (record r { eval_kont = v })

abbrev pub of_option {ℓ} : {A : Type ℓ} → Option A → Cmd A
of_option none r = fault
of_option (some a) r = ok a r

abbrev pub car_of : Object → Cmd Mobj
car_of (cons_cell a d) r = ok a r
car_of _ r = fault

abbrev pub cdr_of : Object → Cmd Mobj
cdr_of (cons_cell a d) r = ok d r
cdr_of _ r = fault

abbrev pub slots_of : Object → Cmd (List Mobj)
slots_of (slots sec xs) r = ok xs r
slots_of _ r = fault

abbrev pub has_sec : Sec → Object → Bool
has_sec sec (slots sec' xs) = same_sec sec' sec
has_sec sec _ = false

unfoldable pub mcar : Mobj → Cmd Mobj
mcar (pair p) = do car_of (← load p)
mcar _ = λ r. fault

unfoldable pub mcdr : Mobj → Cmd Mobj
mcdr (pair p) = do cdr_of (← load p)
mcdr _ = λ r. fault

abbrev set_cdr_of : Addr → Mobj → Object → Cmd (Unit {0})
set_cdr_of p v (cons_cell a d) r = ok tt (write r p (cons_cell a v))
set_cdr_of p v _ r = fault

unfoldable pub mset_cdr : Mobj → Mobj → Cmd (Unit {0})
mset_cdr (pair p) v = do set_cdr_of p v (← load p)
mset_cdr _ v = λ r. fault

-- The payload slots of a typed object: Mtyped_obj_slots is their number.
unfoldable pub typed_slots : Mobj → Cmd (List Mobj)
typed_slots (typed p) = do slots_of (← load p)
typed_slots _ = λ r. fault

-- Mtyped_obj_ref and Mvector_ref, which are one expression.
unfoldable pub mtyped_obj_ref : Mobj → ℕ → Cmd Mobj
unfolding typed_slots
mtyped_obj_ref v i = do of_option (get_elem? (← typed_slots v) i)

abbrev pub set_slot_of : Addr → ℕ → Mobj → Object → Cmd (Unit {0})
set_slot_of p i x (slots sec xs) r = elim (get_elem? xs i) [
  | none ↦ fault
  | some _ ↦ ok tt (write r p (slots sec (set xs i x)))
]
set_slot_of p i x _ r = fault

-- Mtyped_obj_set and Mvector_set.
unfoldable pub mtyped_obj_set : Mobj → ℕ → Mobj → Cmd (Unit {0})
mtyped_obj_set (typed p) i x = do set_slot_of p i x (← load p)
mtyped_obj_set _ i x = λ r. fault

unfoldable pub mvector_length : Mobj → Cmd ℕ
unfolding typed_slots
mvector_length v = do pure (length (← typed_slots v))

-- _Mhas_secondary: the header is read only behind the tag of a typed object.
unfoldable pub has_secondary : Mobj → Sec → Cmd Bool
has_secondary (typed p) sec = do pure (has_sec sec (← load p))
has_secondary _ sec = pure false

abbrev is_str : Object → Bool
is_str (str bs) = true
is_str _ = false

unfoldable pub mvectorp : Mobj → Cmd Bool
unfolding has_secondary
mvectorp v = has_secondary v vector

unfoldable pub menvp : Mobj → Cmd Bool
unfolding has_secondary
menvp v = has_secondary v env

unfoldable pub mkontp : Mobj → Cmd Bool
unfolding has_secondary
mkontp v = has_secondary v kont

unfoldable pub mprimp : Mobj → Cmd Bool
unfolding has_secondary
mprimp v = has_secondary v prim

unfoldable pub mstringp : Mobj → Cmd Bool
mstringp (typed p) = do pure (is_str (← load p))
mstringp _ = pure false

abbrev name_of : Object → Cmd (List ℕ)
name_of (name s) r = ok s r
name_of _ r = fault

unfoldable pub msymbol_name : Mobj → Cmd (List ℕ)
msymbol_name (symbol p) = do name_of (← load p)
msymbol_name _ = λ r. fault

-- A closure's four slots.
pub record ClosureSlots : Type 0 where
  pub params : Mobj
  pub body : Mobj
  pub env : Mobj
  pub name : Mobj

abbrev closure_of : Object → Cmd ClosureSlots
closure_of (lambda p b e n) r = ok (record { params = p; body = b; env = e; name = n }) r
closure_of _ r = fault

unfoldable pub mclosure_slots : Mobj → Cmd ClosureSlots
mclosure_slots (closure p) = do closure_of (← load p)
mclosure_slots _ = λ r. fault

abbrev set_name_of : Addr → Mobj → Object → Cmd (Unit {0})
set_name_of p x (lambda ps b e n) r = ok tt (write r p (lambda ps b e x))
set_name_of p x _ r = fault

unfoldable pub mclosure_set_name : Mobj → Mobj → Cmd (Unit {0})
mclosure_set_name (closure p) x = do set_name_of p x (← load p)
mclosure_set_name _ x = λ r. fault
