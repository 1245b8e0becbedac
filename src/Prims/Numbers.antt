-- ===== src/Prims/Numbers.antt =====
-- src/prims.c: arithmetic. An argument that is a flonum makes the whole sum a flonum.
use minim.Base.{ℕ, zero, suc, ◌+◌, ◌*◌, ◌/◌, ◌%◌, ◌^◌, Bool, true, not, ◌==◌, if◌then◌else◌}
use minim.Object.{Mobj, mfalse, mtrue, mpairp, mnullp, mflonump, mfixnum}
use minim.Runtime.{Cmd, fault, out_of_fuel, pure, ◌>>=◌, ◌>>◌, mcar, mcdr}
use minim.Alloc.{mflonum}
use minim.Equal.{mflonum_val}
use minim.Eval.Apply.{mfixnum_val}
use minim.Prims.{Doubles, mboolean, second, walk, any_flonum, negated, signed_lt, to_double}

-- `s += Mfixnum_val(Mcar(p))`, and the like.
abbrev pub add_step : ℕ → Mobj → Cmd ℕ
add_step s a = do n ← mfixnum_val a; pure ((s + n) % 2 ^ 64)

abbrev pub mul_step : ℕ → Mobj → Cmd ℕ
mul_step s a = do n ← mfixnum_val a; pure ((s * n) % 2 ^ 64)

abbrev pub sub_step : ℕ → Mobj → Cmd ℕ
sub_step s a = do n ← mfixnum_val a; pure ((s + negated n) % 2 ^ 64)

-- C's `/` and `%` truncate towards zero; the sign of the remainder is the dividend's.
abbrev pub is_negative : ℕ → Bool
is_negative n = signed_lt n 0

abbrev pub magnitude : ℕ → ℕ
magnitude n = if is_negative n then negated n else n

abbrev pub with_sign : Bool → ℕ → ℕ
with_sign minus n = if minus then negated n else n % 2 ^ 64

abbrev pub differ : Bool → Bool → Bool
differ a b = if a then not b else b

unfoldable pub truncated_quotient : ℕ → ℕ → ℕ
truncated_quotient a b =
    with_sign (differ (is_negative a) (is_negative b)) (magnitude a / magnitude b)

unfoldable pub truncated_remainder : ℕ → ℕ → ℕ
truncated_remainder a b = with_sign (is_negative a) (magnitude a % magnitude b)

-- A division by zero is undefined in C.
abbrev pub nonzero : ℕ → Cmd (Unit {0})
nonzero b = if b == 0 then (λ r. fault) else pure tt

unfoldable pub prim_quotient : Mobj → Cmd Mobj
prim_quotient args = do
  a ← mfixnum_val (← mcar args)
  b ← mfixnum_val (← second args)
  nonzero b
  pure (mfixnum (truncated_quotient a b))

unfoldable pub prim_remainder : Mobj → Cmd Mobj
prim_remainder args = do
  a ← mfixnum_val (← mcar args)
  b ← mfixnum_val (← second args)
  nonzero b
  pure (mfixnum (truncated_remainder a b))

-- The loop of a comparison: `value` reads an argument, and the loop stops at the first pair that fails.
unfoldable pub pairwise_loop : (ℕ → ℕ → Bool) → (Mobj → Cmd ℕ) → ℕ → ℕ → Mobj → Cmd Mobj
pairwise_loop c value zero prev p = λ _. out_of_fuel
pairwise_loop c value (suc fuel) prev p =
    let next = λ (cur : ℕ) (p' : Mobj). pairwise_loop c value fuel cur p' in
    if mpairp p
    then (do
      cur ← mcar p >>= value
      if c prev cur then (do p' ← mcdr p; next cur p') else pure mfalse)
    else pure mtrue

unfoldable pub pairwise : (ℕ → ℕ → Bool) → (Mobj → Cmd ℕ) → Mobj → Cmd Mobj
pairwise c value args = do
  prev ← mcar args >>= value
  rest ← mcdr args
  λ r. pairwise_loop c value (suc r.ap) prev rest r

abbrev pub ci_eq : ℕ → ℕ → Bool
ci_eq a b = a == b

abbrev pub ci_lt : ℕ → ℕ → Bool
ci_lt a b = signed_lt a b

abbrev pub ci_gt : ℕ → ℕ → Bool
ci_gt a b = signed_lt b a

abbrev pub ci_le : ℕ → ℕ → Bool
ci_le a b = not (signed_lt b a)

abbrev pub ci_ge : ℕ → ℕ → Bool
ci_ge a b = not (signed_lt a b)

module _ (fl : Doubles) where
  abbrev pub fold_doubles : (ℕ → ℕ → ℕ) → ℕ → Mobj → Cmd Mobj
  fold_doubles op start args = do
    s ← walk (λ (s : ℕ) (a : Mobj). to_double fl a >>= λ d. pure (op s d)) start args
    mflonum s

  unfoldable pub prim_add : Mobj → Cmd Mobj
  prim_add args = do
    has_flonum ← any_flonum args
    if has_flonum
        then fold_doubles fl.add (fl.of_int 0) args
        else (do s ← walk add_step 0 args; pure (mfixnum s))

  unfoldable pub prim_mul : Mobj → Cmd Mobj
  prim_mul args = do
    has_flonum ← any_flonum args
    if has_flonum
        then fold_doubles fl.mul (fl.of_int 1) args
        else (do s ← walk mul_step 1 args; pure (mfixnum s))

  unfoldable pub negate : Mobj → Cmd Mobj
  negate first =
      if mflonump first
      then (do d ← mflonum_val first; mflonum (fl.neg d))
      else (do n ← mfixnum_val first; pure (mfixnum (negated n)))

  unfoldable pub subtract : Mobj → Mobj → Cmd Mobj
  subtract first rest = do
    has_flonum ← if mflonump first then pure true else any_flonum rest
    if has_flonum
        then (do d ← to_double fl first; fold_doubles fl.sub d rest)
        else (do n ← mfixnum_val first; s ← walk sub_step n rest; pure (mfixnum s))

  unfoldable pub prim_sub : Mobj → Cmd Mobj
  prim_sub args = do
    first ← mcar args
    rest ← mcdr args
    if mnullp rest then negate first else subtract first rest

  unfoldable pub cmp_pairwise : Mobj → (ℕ → ℕ → Bool) → (ℕ → ℕ → Bool) → Cmd Mobj
  cmp_pairwise args ci cf = do
    has_flonum ← any_flonum args
    if has_flonum then pairwise cf (to_double fl) args else pairwise ci mfixnum_val args

  unfoldable pub prim_num_eq : Mobj → Cmd Mobj
  prim_num_eq args = cmp_pairwise args ci_eq fl.eq

  unfoldable pub prim_lt : Mobj → Cmd Mobj
  prim_lt args = cmp_pairwise args ci_lt fl.less

  unfoldable pub prim_gt : Mobj → Cmd Mobj
  prim_gt args = cmp_pairwise args ci_gt (λ a b. fl.less b a)

  unfoldable pub prim_le : Mobj → Cmd Mobj
  prim_le args = cmp_pairwise args ci_le fl.less_eq

  unfoldable pub prim_ge : Mobj → Cmd Mobj
  prim_ge args = cmp_pairwise args ci_ge (λ a b. fl.less_eq b a)

  -- A test of the number that is the first argument.
  abbrev test_number : (ℕ → Bool) → (ℕ → Bool) → Mobj → Cmd Mobj
  test_number of_int of_double args = do
    v ← mcar args
    if mflonump v
        then (do d ← mflonum_val v; pure (mboolean (of_double d)))
        else (do n ← mfixnum_val v; pure (mboolean (of_int n)))

  unfoldable pub prim_zero_p : Mobj → Cmd Mobj
  prim_zero_p args = test_number (λ n. n == 0) (λ d. fl.eq d (fl.of_int 0)) args

  unfoldable pub prim_positive_p : Mobj → Cmd Mobj
  prim_positive_p args = test_number (λ n. signed_lt 0 n) (λ d. fl.less (fl.of_int 0) d) args

  unfoldable pub prim_negative_p : Mobj → Cmd Mobj
  prim_negative_p args = test_number (λ n. signed_lt n 0) (λ d. fl.less d (fl.of_int 0)) args

  unfoldable pub prim_abs : Mobj → Cmd Mobj
  prim_abs args = do
    v ← mcar args
    if mflonump v
        then (do d ← mflonum_val v; if fl.signbit d then mflonum (fl.neg d) else pure v)
        else (do n ← mfixnum_val v; pure (if signed_lt n 0 then mfixnum (negated n) else v))

  unfoldable pub prim_exact_to_inexact : Mobj → Cmd Mobj
  prim_exact_to_inexact args = do
    v ← mcar args
    if mflonump v then pure v else (do n ← mfixnum_val v; mflonum (fl.of_int n))
