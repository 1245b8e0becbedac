-- ===== src/Writer.antt =====
-- src/write.c: the writer. What a call puts out is the list of its bytes; `write_to` walks on fuel,
-- since the program does not stop on a circular structure.
pub mod Data
use minim.Base.{
  ℕ, zero, suc, ◌+◌, ◌-◌, ◌/◌, ◌%◌, ◌^◌, Bool, true, false, not, ◌&&◌, ◌||◌, List, [], ◌∷◌, ◌++◌,
  ltb, leb, ◌==◌, if◌then◌else◌, codes,
}
use minim.Object.{
  Mobj, fixnum, mfalse, mtrue, mnull, mvoid, meof, char, pair, flonum, symbol, closure, typed,
  Object, slots, str, vector, kont, env, prim, mpairp, mnullp, msymbolp, sign_extend,
}
use minim.Runtime.{
  Cmd, pure, fault, out_of_fuel, ◌>>=◌, load, mcar, mcdr, typed_slots, msymbol_name, mclosure_slots,
  mtyped_obj_ref,
}
use minim.Equal.{mflonum_val, mstring_bytes}

pub data WriterMode : Type 0 where
  writer_write writer_display : WriterMode

-- What <math.h> and `%.17g` of snprintf say about the double with the given bits.
pub record DoubleText : Type 0 where
  pub isnan : ℕ → Bool
  pub isinf : ℕ → Bool
  pub negative : ℕ → Bool
  pub format : ℕ → List ℕ

-- The digits of `%d` and `%X`, the most significant first.
unfoldable pub digit_char : ℕ → ℕ
digit_char d = if ltb d 10 then b'0' + d else b'A' + (d - 10)

unfoldable pub to_base : ℕ → ℕ → ℕ → List ℕ
to_base base zero n = []
to_base base (suc fuel) n =
    let high = to_base base fuel (n / base) in
    if ltb n base then digit_char n ∷ [] else high ++ digit_char (n % base) ∷ []

-- A 64-bit number has 64 digits at most, in any base from 2 on.
unfoldable pub write_signed : ℕ → List ℕ
write_signed n = if ltb n (2 ^ 63) then to_base 10 64 n else b'-' ∷ to_base 10 64 (2 ^ 64 - n)

unfoldable pub write_hex : ℕ → List ℕ
write_hex n = to_base 16 64 n

-- The `switch` of `write_char` and what follows it.
unfoldable pub canonical_char : ℕ → List ℕ
canonical_char c =
    if c == 0x00
    then codes "#\\null"
    else if c == 0x07
    then codes "#\\alarm"
    else if c == 0x08
    then codes "#\\backspace"
    else if c == 0x09
    then codes "#\\tab"
    else if c == 0x0A
    then codes "#\\newline"
    else if c == 0x0D
    then codes "#\\return"
    else if c == 0x1B
    then codes "#\\escape"
    else if c == 0x20
    then codes "#\\space"
    else if c == 0x7F
    then codes "#\\delete"
    else if leb 0x21 c && leb c 0x7E
    then b'#' ∷ b'\\' ∷ c ∷ []
    else b'#' ∷ b'\\' ∷ b'x' ∷ write_hex c

unfoldable pub write_char : WriterMode → ℕ → List ℕ
write_char writer_write c = canonical_char c
write_char writer_display c = if leb c 0x7F then c ∷ [] else canonical_char c

unfoldable pub escape_byte : ℕ → List ℕ
escape_byte c =
    if c == b'\\'
    then codes "\\\\"
    else if c == b'"'
    then codes "\\\""
    else if c == b'\n'
    then codes "\\n"
    else if c == b'\t'
    then codes "\\t"
    else if c == b'\r'
    then codes "\\r"
    else c ∷ []

unfoldable pub escape_bytes : List ℕ → List ℕ
escape_bytes [] = []
escape_bytes (c ∷ cs) = escape_byte c ++ escape_bytes cs

unfoldable pub quoted : WriterMode → List ℕ → List ℕ
quoted writer_display bs = bs
quoted writer_write bs = b'"' ∷ (escape_bytes bs ++ b'"' ∷ [])

unfoldable pub write_string : WriterMode → Mobj → Cmd (List ℕ)
write_string mode v = do bs ← mstring_bytes v; pure (quoted mode bs)

unfoldable pub write_named_procedure : Mobj → Cmd (List ℕ)
write_named_procedure n =
    if msymbolp n
    then (do s ← msymbol_name n; pure (codes "#<procedure:" ++ (s ++ b'>' ∷ [])))
    else pure (codes "#<procedure>")

-- `strpbrk(buf, ".eE")`.
unfoldable pub has_point : List ℕ → Bool
has_point [] = false
has_point (c ∷ cs) = (c == b'.') || ((c == b'e') || ((c == b'E') || has_point cs))

unfoldable pub double_text : DoubleText → ℕ → List ℕ
double_text dt d =
    if dt.isnan d
    then codes "+nan.0"
    else if dt.isinf d
    then (if dt.negative d then codes "-inf.0" else codes "+inf.0")
    else if not (has_point (dt.format d))
    then dt.format d ++ codes ".0"
    else dt.format d

unfoldable pub write_flonum : DoubleText → Mobj → Cmd (List ℕ)
write_flonum dt v = do d ← mflonum_val v; pure (double_text dt d)

-- The end of a list, or of a dotted one.
unfoldable pub write_tail : (Mobj → Cmd (List ℕ)) → Mobj → Cmd (List ℕ)
write_tail write cur =
    if not (mnullp cur)
    then (do s ← write cur; pure (codes " . " ++ (s ++ b')' ∷ [])))
    else pure (b')' ∷ [])

-- One round of the `while` loop, with the rest of the loop.
unfoldable pub write_cdr : (write rest : Mobj → Cmd (List ℕ)) → Mobj → Cmd (List ℕ)
write_cdr write rest cur = do s ← write (← mcar cur); t ← rest (← mcdr cur); pure (b' ' ∷ (s ++ t))

unfoldable pub write_cdrs : (Mobj → Cmd (List ℕ)) → ℕ → Mobj → Cmd (List ℕ)
write_cdrs write zero cur = λ _. out_of_fuel
write_cdrs write (suc fuel) cur =
    let rest = λ (d : Mobj). write_cdrs write fuel d in
    if mpairp cur then write_cdr write rest cur else write_tail write cur

unfoldable pub write_pair : (Mobj → Cmd (List ℕ)) → ℕ → Mobj → Cmd (List ℕ)
write_pair write fuel v = do
  s ← write (← mcar v)
  t ← write_cdrs write fuel (← mcdr v)
  pure (b'(' ∷ (s ++ t))

-- The slots behind the first, each after a space, and the closing parenthesis.
unfoldable pub write_slots : (Mobj → Cmd (List ℕ)) → List Mobj → Cmd (List ℕ)
write_slots write [] = pure (b')' ∷ [])
write_slots write (x ∷ xs) =
    let rest = write_slots write xs in do s ← write x; t ← rest; pure (b' ' ∷ (s ++ t))

unfoldable pub write_elements : (Mobj → Cmd (List ℕ)) → List Mobj → Cmd (List ℕ)
write_elements write [] = pure (codes "#()")
write_elements write (x ∷ xs) = do
  s ← write x
  t ← write_slots write xs
  pure (codes "#(" ++ (s ++ t))

unfoldable pub write_vector : (Mobj → Cmd (List ℕ)) → Mobj → Cmd (List ℕ)
write_vector write v = do xs ← typed_slots v; write_elements write xs

-- The `switch` on the secondary tag in the header.
unfoldable pub write_typed : (Mobj → Cmd (List ℕ)) → WriterMode → Mobj → Object → Cmd (List ℕ)
write_typed write mode v (slots vector xs) = write_vector write v
write_typed write mode v (str bs) = write_string mode v
write_typed write mode v (slots kont xs) = pure (codes "#<continuation>")
write_typed write mode v (slots env xs) = pure (codes "#<environment>")
write_typed write mode v (slots prim xs) = do write_named_procedure (← mtyped_obj_ref v 0)
write_typed write mode v _ = λ _. fault

-- The `switch` on the primary tag.
unfoldable pub write_datum :
    DoubleText → (Mobj → Cmd (List ℕ)) → ℕ → WriterMode → Mobj → Cmd (List ℕ)
write_datum dt write fuel mode (fixnum n) = pure (write_signed (sign_extend n))
write_datum dt write fuel mode (pair p) = write_pair write fuel (pair p)
write_datum dt write fuel mode (flonum p) = write_flonum dt (flonum p)
write_datum dt write fuel mode (symbol p) = msymbol_name (symbol p)
write_datum dt write fuel mode (closure p) = do
  c ← mclosure_slots (closure p)
  write_named_procedure c.name
write_datum dt write fuel mode (char c) = pure (write_char mode (c % 2 ^ 32))
write_datum dt write fuel mode mfalse = pure (codes "#f")
write_datum dt write fuel mode mtrue = pure (codes "#t")
write_datum dt write fuel mode mnull = pure (codes "()")
write_datum dt write fuel mode meof = pure (codes "#<eof>")
write_datum dt write fuel mode mvoid = pure (codes "#<void>")
write_datum dt write fuel mode (typed p) = do write_typed write mode (typed p) (← load p)

unfoldable pub write_to : DoubleText → ℕ → WriterMode → Mobj → Cmd (List ℕ)
write_to dt zero mode v = λ _. out_of_fuel
write_to dt (suc fuel) mode v =
    let write = λ (w : Mobj). write_to dt fuel mode w in write_datum dt write fuel mode v

unfoldable pub mwrite : DoubleText → ℕ → Mobj → Cmd (List ℕ)
mwrite dt fuel v = write_to dt fuel writer_write v

unfoldable pub mdisplay : DoubleText → ℕ → Mobj → Cmd (List ℕ)
mdisplay dt fuel v = write_to dt fuel writer_display v
