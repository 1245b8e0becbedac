-- ===== src/Reader/Digits.antt =====
-- src/write.c and src/read.c: the digits that `%d` and `%X` put out, and the loops that read them.
use mathlib.Core.List.{append_assoc}
use native.Mathlib.Nat.{two-pow-succ, mod-lt}
use minim.Base.{
  ℕ, zero, suc, ◌+◌, ◌-◌, ◌*◌, ◌/◌, ◌%◌, ◌^◌, ◌≤◌, ◌<◌, ◌≡◌, refl, ap, some, ◌∙◌, true, false, inl,
  inr, Bool-cases, List, [], ◌∷◌, ◌++◌, ltb, length, length-append, arith, if◌then◌else◌,
}
use minim.Runtime.{Runtime}
use minim.Writer.{digit_char, to_base}
use minim.ParseError.{exceeds_unicode}
use minim.Reader.{parse_fails, Reader, isdigit, hex_digit_val, is_symbol_char, isspace}
use minim.Reader.Tokens.{all_digits, decimal_loop}
use minim.Reader.Literals.{all_hex, hex_code, or_zero}
use minim.Reader.Lexing.{AllSymbol}

-- The digits of a number, the last one put behind those of the quotient.
pub data Digits (base : ℕ) : ℕ → List ℕ → Type 0 where
  one : {n : ℕ} {ds : List ℕ} → n < base → ds ≡ digit_char n ∷ [] → Digits base n ds
  more :
      {n q : ℕ} {ds es : List ℕ}
      → base ≤ n
      → q ≡ n / base
      → Digits base q ds
      → es ≡ ds ++ digit_char (n % base) ∷ []
      → Digits base n es

pub to_base-Digits :
    (base fuel n : ℕ)
    → 2 ≤ base
    → ((m : ℕ) → m / base * 2 ≤ m)
    → n < 2 ^ fuel
    → Digits base n (to_base base (suc fuel) n)
unfolding to_base
to_base-Digits base zero n two half h = one (omega arith) (ground arith)
to_base-Digits base (suc fuel) n two half h = elim (Bool-cases (ltb n base)) [
  | inl small ↦ one (ground arith) (rw small refl)
  | inr large ↦
      more (ground arith) refl
        (to_base-Digits base fuel (n / base) two half (omega (arith, half n, two-pow-succ fuel)))
        (rw large refl)
]

pub length-Digits_pos : {base n : ℕ} {ds : List ℕ} → Digits base n ds → 0 < length ds
length-Digits_pos (one small e) = rw e (omega arith)
length-Digits_pos (more {n} {q} {ds} large e d s) = rw s (omega (arith, length-append ds (_ ∷ [])))

module _ {base : ℕ} (two : 2 ≤ base) (half : (m : ℕ) → m / base * 2 ≤ m) where
  -- A number below 2 ^ (k + 1) has k + 1 digits at most.
  pub length-Digits :
      {n : ℕ} {ds : List ℕ} (k : ℕ) → Digits base n ds → n < 2 ^ suc k → length ds ≤ suc k
  length-Digits k (one small e) h = rw e (omega arith)
  length-Digits zero (more {n} {q} large e d s) h = absurd (omega arith)
  length-Digits (suc k) (more {n} {q} {ds} large e d s) h = rw s (
      omega (
        arith,
        length-append ds (digit_char (n % base) ∷ []),
        length-Digits k d (omega (arith, half n, two-pow-succ (suc k))),
      ))

pub decimal_digit : (n : ℕ) → n < 10 → digit_char n ≡ 48 + n
unfolding digit_char
decimal_digit n h = ground arith

decimal_loop_digit :
    (n m c : ℕ) (rest : List ℕ)
    → (n * 10 + (c - 48)) % 2 ^ 64 ≡ m
    → decimal_loop n (c ∷ rest) ≡ decimal_loop m rest
unfolding decimal_loop
decimal_loop_digit n m c rest e = ap (λ (k : ℕ). decimal_loop k rest) e

-- The loop reads the digits of a number that fits into 64 bits as the number.
pub decimal_loop-Digits :
    {n : ℕ} {ds : List ℕ} (rest : List ℕ)
    → Digits 10 n ds
    → n < 2 ^ 64
    → decimal_loop 0 (ds ++ rest) ≡ decimal_loop n rest
decimal_loop-Digits rest (one {n} h e) small =
    rw e (decimal_loop_digit 0 n (digit_char n) rest (omega (arith, decimal_digit n h)))
decimal_loop-Digits rest (more {n} {q} {ds} large e d s) small =
    let last =
      decimal_loop_digit q n (digit_char (n % 10)) rest
        (omega (arith, decimal_digit (n % 10) (omega arith))) in
    rw s (rw append_assoc (decimal_loop-Digits (digit_char (n % 10) ∷ rest) d (omega arith) ∙ last))

hex_digit_val-digit_char : (d : ℕ) → d < 16 → hex_digit_val (some (digit_char d)) ≡ some d
unfolding hex_digit_val digit_char
hex_digit_val-digit_char d h = ground arith

hex_code_round :
    (n c : ℕ) (rest : List ℕ) (rd : Reader) (r : Runtime)
    → hex_code n (c ∷ rest) rd r ≡ (
        let m = n * 16 + or_zero (hex_digit_val (some c)) in
        (if ltb 0x10FFFF m then parse_fails exceeds_unicode else hex_code m rest) rd r)
unfolding hex_code
hex_code_round n c rest rd r = refl

hex_code_digit :
    (n m c : ℕ) (rest : List ℕ) (rd : Reader) (r : Runtime)
    → n * 16 + or_zero (hex_digit_val (some c)) ≡ m
    → m ≤ 0x10FFFF
    → hex_code n (c ∷ rest) rd r ≡ hex_code m rest rd r
hex_code_digit n m c rest rd r e h =
    let fits : ltb 0x10FFFF m ≡ false = ground arith in
    hex_code_round n c rest rd r ∙ rw e (rw fits refl)

-- The loop reads the digits of a code point as the code point.
pub hex_code-Digits :
    {n : ℕ} {ds : List ℕ} (rest : List ℕ) (rd : Reader) (r : Runtime)
    → Digits 16 n ds
    → n ≤ 0x10FFFF
    → hex_code 0 (ds ++ rest) rd r ≡ hex_code n rest rd r
hex_code-Digits rest rd r (one {n} h e) small = rw e (
    hex_code_digit 0 n (digit_char n) rest rd r
      (omega (arith, ap or_zero (hex_digit_val-digit_char n h))) small)
hex_code-Digits rest rd r (more {n} {q} {ds} large e d s) small =
    let last =
      hex_code_digit q n (digit_char (n % 16)) rest rd r
        (omega (arith, ap or_zero (hex_digit_val-digit_char (n % 16) (omega arith)))) small in
    rw s
      (rw append_assoc (hex_code-Digits (digit_char (n % 16) ∷ rest) rd r d (omega arith) ∙ last))

all_digits_digit :
    (c : ℕ) (rest : List ℕ) → isdigit c ≡ true → all_digits (c ∷ rest) ≡ all_digits rest
unfolding all_digits
all_digits_digit c rest h = rw h refl

isdigit-digit_char : (d : ℕ) → d < 10 → isdigit (digit_char d) ≡ true
unfolding isdigit digit_char
isdigit-digit_char d h = ground arith

pub all_digits-Digits :
    {n : ℕ} {ds : List ℕ} (rest : List ℕ)
    → Digits 10 n ds
    → all_digits (ds ++ rest) ≡ all_digits rest
all_digits-Digits rest (one {n} h e) = rw e (all_digits_digit _ rest (isdigit-digit_char n h))
all_digits-Digits rest (more {n} {q} {ds} large e d s) = rw s (
    rw append_assoc (
      all_digits-Digits (digit_char (n % 10) ∷ rest) d
      ∙ all_digits_digit _ rest (isdigit-digit_char (n % 10) (omega arith))))

all_hex_digit : (d : ℕ) (rest : List ℕ) → d < 16 → all_hex (digit_char d ∷ rest) ≡ all_hex rest
unfolding all_hex
all_hex_digit d rest h = rw (hex_digit_val-digit_char d h, all_hex) refl

pub all_hex-Digits :
    {n : ℕ} {ds : List ℕ} (rest : List ℕ) → Digits 16 n ds → all_hex (ds ++ rest) ≡ all_hex rest
all_hex-Digits rest (one {n} h e) = rw e (all_hex_digit n rest h)
all_hex-Digits rest (more {n} {q} {ds} large e d s) = rw s (
    rw append_assoc
      (all_hex-Digits (digit_char (n % 16) ∷ rest) d ∙ all_hex_digit (n % 16) rest (omega arith)))

is_symbol_char-digit_char : (d : ℕ) → d < 16 → is_symbol_char (some (digit_char d)) ≡ true
unfolding is_symbol_char isspace digit_char
is_symbol_char-digit_char d h = ground arith

pub AllSymbol-append : (cs ds : List ℕ) → AllSymbol cs → AllSymbol ds → AllSymbol (cs ++ ds)
AllSymbol-append [] ds h k = k
AllSymbol-append (c ∷ cs) ds (h, hs) k = (h, AllSymbol-append cs ds hs k)

pub AllSymbol-Digits :
    {base n : ℕ} {ds : List ℕ} → 2 ≤ base → base ≤ 16 → Digits base n ds → AllSymbol ds
AllSymbol-Digits two high (one {n} h e) = rw e (is_symbol_char-digit_char n (omega arith), tt)
AllSymbol-Digits {base} two high (more {n} {q} {ds} large e d s) =
    let last : n % base < base = mod-lt n (omega arith) in
    rw s (
      AllSymbol-append ds _ (AllSymbol-Digits two high d)
        (is_symbol_char-digit_char (n % base) (omega arith), tt))
