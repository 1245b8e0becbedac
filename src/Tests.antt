-- ===== src/Tests.antt =====
-- The states and values that the runs and the instances of the theorems share.
mod Runs
mod Data
mod Env
mod Forms
mod Calls
mod Collector
mod Spaces
mod Numbers
mod Text
use minim.Base.{ℕ, ◌%◌, ◌^◌, Bool, not, ◌&&◌, ◌||◌, ltb, ◌==◌, [], ◌∷◌, none, some, Option}
use minim.Object.{
  Mobj, fixnum, mnull, str, pair, typed, symbol, name, cons_cell, slots, env, vector,
}
use minim.Runtime.{Runtime, Run, ok, halt_mode, write}

abbrev pub blank : Runtime
blank = record {
  heap = λ _. none;
  ap = 0;
  intern_table = [];
  intern_table_n = 0;
  begin_sym = fixnum 0;
  define_sym = fixnum 0;
  if_sym = fixnum 0;
  lambda_sym = fixnum 0;
  let_sym = fixnum 0;
  quote_sym = fixnum 0;
  set_sym = fixnum 0;
  prim_fn_table = [];
  top_level_env = mnull;
  mode = halt_mode;
  eval_expr = mnull;
  eval_env = mnull;
  eval_kont = mnull;
}

abbrev pub result {ℓ} : {A : Type ℓ} → Run A → Option A
result (ok a r) = some a
result _ = none

-- The comparison of doubles by their bits: a NaN differs from all, and the zeros are equal.
unfoldable pub ieee_eq : ℕ → ℕ → Bool
ieee_eq x y =
    not (ltb 0x7FF0000000000000 (x % 2 ^ 63))
    && ((x == y) || ((x % 2 ^ 63 == 0) && (y % 2 ^ 63 == 0)))

-- The strings "hi" at 0 and 16, and the pairs ("hi" . 1) at 32 and 48, one on each.
abbrev pub twins : Runtime
twins =
    let h = λ (o : Runtime). write o 0 (str (104 ∷ 105 ∷ [])) in
    let i = λ (o : Runtime). write o 16 (str (104 ∷ 105 ∷ [])) in
    let p = λ (o : Runtime). write o 32 (cons_cell (typed 0) (fixnum 1)) in
    let q = λ (o : Runtime). write o 48 (cons_cell (typed 16) (fixnum 1)) in
    record (q (p (i (h blank)))) { ap = 64 }

-- x is 5 at the top level, and 7 in a rib that is bound to no variable yet.
abbrev pub x_sym : Mobj
x_sym = symbol 0

abbrev pub y_sym : Mobj
y_sym = symbol 16

abbrev pub scope : Runtime
scope =
    let a = write blank 0 (name (120 ∷ [])) in
    let b = write a 16 (name (121 ∷ [])) in
    let c = write b 32 (cons_cell x_sym (fixnum 5)) in
    let d = write c 48 (cons_cell (pair 32) mnull) in
    let e = write d 64 (slots vector (y_sym ∷ fixnum 7 ∷ [])) in
    let f = write e 96 (slots env (typed 64 ∷ mnull ∷ [])) in
    record f { ap = 128; top_level_env = pair 48 }
