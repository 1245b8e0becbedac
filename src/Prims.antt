-- ===== src/Prims.antt =====
-- src/prims.c: what the primitive procedures share. A primitive takes the list of its arguments. An
-- `intptr_t` is its 64-bit pattern, whose overflow wraps; a double is its 64 bits, and the operations on
-- doubles are a parameter.
pub mod Lists
pub mod Numbers
pub mod Table
pub mod Walk
pub mod Arithmetic
pub mod Compare
pub mod Division
pub mod Vector
pub mod Entry
pub mod Registered
pub mod Start
use minim.Base.{ℕ, zero, suc, ◌+◌, ◌-◌, ◌%◌, ◌^◌, Bool, true, false, ltb, if◌then◌else◌}
use minim.Object.{Mobj, mtrue, mfalse, mpairp, mflonump, mfixnump, sign_extend, fixnum}
use minim.Runtime.{Cmd, out_of_fuel, fault, pure, get, ◌>>=◌, mcar, mcdr}
use minim.Eval.Apply.{mfixnum_val}
use minim.Equal.{mflonum_val}

-- The operations of IEEE 754 that the program uses, on bits; `of_int` is the cast from `intptr_t`.
pub record Doubles : Type 0 where
  pub of_int : ℕ → ℕ
  pub add : ℕ → ℕ → ℕ
  pub sub : ℕ → ℕ → ℕ
  pub mul : ℕ → ℕ → ℕ
  pub neg : ℕ → ℕ
  pub eq : ℕ → ℕ → Bool
  pub less : ℕ → ℕ → Bool
  pub less_eq : ℕ → ℕ → Bool
  pub signbit : ℕ → Bool

abbrev pub mboolean : Bool → Mobj
mboolean b = if b then mtrue else mfalse

-- Mcar(args), Mcar(Mcdr(args)) and Mcar(Mcdr(Mcdr(args))).
unfoldable pub second : Mobj → Cmd Mobj
unfolding mcar mcdr
second args = do mcar (← mcdr args)

unfoldable pub third : Mobj → Cmd Mobj
unfolding mcar mcdr
third args = do mcar (← mcdr (← mcdr args))

-- `for (mobj p = args; Mpairp(p); p = Mcdr(p))`, with what the body keeps in its variables.
unfoldable pub for_each : {A : Type 0} → (A → Mobj → Cmd A) → ℕ → A → Mobj → Cmd A
for_each body zero acc p = λ _. out_of_fuel
for_each {A} body (suc fuel) acc p =
    let next = λ (acc' : A) (p' : Mobj). for_each body fuel acc' p' in
    if mpairp p then (do a ← mcar p; acc' ← body acc a; p' ← mcdr p; next acc' p') else pure acc

-- The fuel is enough for a chain of pairs below the allocation pointer.
unfoldable pub walk : {A : Type 0} → (A → Mobj → Cmd A) → A → Mobj → Cmd A
walk body acc p r = for_each body (suc r.ap) acc p r

-- The loop stops at the first flonum.
unfoldable pub any_flonum_loop : ℕ → Mobj → Cmd Bool
any_flonum_loop zero p = λ _. out_of_fuel
any_flonum_loop (suc fuel) p =
    let next = λ (p' : Mobj). any_flonum_loop fuel p' in
    if mpairp p
    then (do a ← mcar p; if mflonump a then pure true else mcdr p >>= λ p'. next p')
    else pure false

unfoldable pub any_flonum : Mobj → Cmd Bool
any_flonum args r = any_flonum_loop (suc r.ap) args r

-- `-n` and `a < b` on `intptr_t`.
unfoldable pub negated : ℕ → ℕ
negated n = (2 ^ 64 - n) % 2 ^ 64

unfoldable pub signed_lt : ℕ → ℕ → Bool
signed_lt a b = ltb ((a + 2 ^ 63) % 2 ^ 64) ((b + 2 ^ 63) % 2 ^ 64)

unfoldable pub to_double : Doubles → Mobj → Cmd ℕ
to_double fl v = if mfixnump v then (do n ← mfixnum_val v; pure (fl.of_int n)) else mflonum_val v
