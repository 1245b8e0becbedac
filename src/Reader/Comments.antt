-- ===== src/Reader/Comments.antt =====
-- src/read.c, `skip_block_comment`: block comments, which nest.
use mathlib.Core.List.{append_assoc}
use mathlib.Core.Path.{subst}
use minim.Base.{
  ℕ, zero, suc, ◌+◌, ◌-◌, ◌<◌, ◌≤◌, ◌≡◌, ◌≢◌, ◌==◌, refl, sym, ◌∙◌, true, false, some, List, [],
  ◌∷◌, ◌++◌, ==_ne, ==_iff, Bool-cases, inl, inr, length, length-append, arith,
}
use minim.Object.{Mobj}
use minim.Runtime.{Runtime}
use minim.Symbol.Laws.{IsTable}
use minim.Writer.Data.{Datum, render}
use minim.Reader.{Reader, Reading, ◌>>=◌, ◌>>◌, pure, reader_get, is_delimiter, isspace}
use minim.Reader.Tokens.{comment_loop, comment_step, skip_block_comment}
use minim.Reader.Datum.{read_datum, mread, datum_step, read_hash, hash_step}
use minim.Reader.Input.{Input, Leaves, head?, reader_get-Leaves, reader_peek-Leaves}
use minim.Reader.Lexing.{skip_char-Leaves}
use minim.Reader.Dispatch.{ReadsAs, ReadsAs-by, read_datum_round}
use minim.Reader.Starts.{IsReadable}
use minim.Reader.RoundTrip.{mread-render}

-- What stands between `#|` and `|#`: bytes, and block comments.
pub data Comment : Type 0 where
  blank : Comment
  byte : ℕ → Comment → Comment
  nested : Comment → Comment → Comment

unfoldable pub comment_text : Comment → List ℕ
comment_text blank = []
comment_text (byte c k) = c ∷ comment_text k
comment_text (nested inner k) = b'#' ∷ b'|' ∷ (comment_text inner ++ b'|' ∷ b'#' ∷ comment_text k)

-- The first byte of the contents, or of the `|#` behind them.
unfoldable pub next : Comment → ℕ
next blank = b'|'
next (byte c k) = c
next (nested inner k) = b'#'

-- No byte starts or ends a comment together with what stands behind it.
abbrev pub IsPlain : Comment → Type 0
IsPlain blank = Unit {0}
IsPlain (byte c k) = (c ≡ b'#' → next k ≢ b'|') × (c ≡ b'|' → next k ≢ b'#') × IsPlain k
IsPlain (nested inner k) = IsPlain inner × IsPlain k

-- The rounds of the loop.
abbrev rounds : Comment → ℕ
rounds blank = 0
rounds (byte c k) = suc (rounds k)
rounds (nested inner k) = suc (rounds inner + suc (rounds k))

comment_loop_round :
    (fuel depth : ℕ)
    → comment_loop (suc fuel) (suc depth)
      ≡ (reader_get >>= comment_step (λ (d : ℕ). comment_loop fuel d) (suc depth))
unfolding comment_loop
comment_loop_round fuel depth = let deep : (suc depth == 0) ≡ false = ground arith in rw deep refl

-- The byte behind a `#` or `|` that changes no depth is still to be read.
comment_step-plain :
    (again : ℕ → Reading (Unit {0})) (depth c n : ℕ) (cs : List ℕ) (rd : Reader) (r : Runtime)
    → (c ≡ b'#' → n ≢ b'|')
    → (c ≡ b'|' → n ≢ b'#')
    → Input rd (n ∷ cs)
    → (rd' : Reader) × (comment_step again depth (some c) rd r ≡ again depth rd' r)
      × Input rd' (n ∷ cs)
unfolding comment_step
comment_step-plain again depth c n cs rd r no_open no_close i = elim (Bool-cases (c == b'#')) [
  | inl hash ↦
      let (rd1, e1, i1) = reader_peek-Leaves rd r (n ∷ cs) i in
      let other = ==_ne n b'|' (no_open ((==_iff c b'#').0 hash)) in
      (rd1, rw (hash, e1) (rw other refl), i1)
  | inr no_hash ↦ elim (Bool-cases (c == b'|')) [
    | inl bar ↦
        let (rd1, e1, i1) = reader_peek-Leaves rd r (n ∷ cs) i in
        let other = ==_ne n b'#' (no_close ((==_iff c b'|').0 bar)) in
        (rd1, rw (no_hash, bar, e1) (rw other refl), i1)
    | inr no_bar ↦ (rd, rw (no_hash, no_bar) refl, i)
  ]
]

-- The two pairs of characters that change the depth.
comment_step-open :
    (again : ℕ → Reading (Unit {0})) (depth : ℕ) (cs : List ℕ) (rd : Reader) (r : Runtime)
    → Input rd (b'|' ∷ cs)
    → (rd' : Reader) × (comment_step again depth (some b'#') rd r ≡ again (depth + 1) rd' r)
      × Input rd' cs
unfolding comment_step
comment_step-open again depth cs rd r i =
    let (rd1, e1, i1) = reader_peek-Leaves rd r (b'|' ∷ cs) i in
    let (rd2, e2, i2) = skip_char-Leaves rd1 r b'|' cs i1 in (rd2, rw e1 (rw e2 refl), i2)

comment_step-close :
    (again : ℕ → Reading (Unit {0})) (depth : ℕ) (cs : List ℕ) (rd : Reader) (r : Runtime)
    → Input rd (b'#' ∷ cs)
    → (rd' : Reader) × (comment_step again depth (some b'|') rd r ≡ again (depth - 1) rd' r)
      × Input rd' cs
unfolding comment_step
comment_step-close again depth cs rd r i =
    let (rd1, e1, i1) = reader_peek-Leaves rd r (b'#' ∷ cs) i in
    let (rd2, e2, i2) = skip_char-Leaves rd1 r b'#' cs i1 in (rd2, rw e1 (rw e2 refl), i2)

-- `|#` takes the loop one level up.
close_comment :
    (fuel depth : ℕ) (cs : List ℕ) (rd : Reader) (r : Runtime)
    → Input rd (b'|' ∷ b'#' ∷ cs)
    → (rd' : Reader) × (comment_loop (suc fuel) (suc depth) rd r ≡ comment_loop fuel depth rd' r)
      × Input rd' cs
close_comment fuel depth cs rd r i =
    let (rd1, e1, i1) = reader_get-Leaves rd r (b'|' ∷ b'#' ∷ cs) i in
    let (rd2, e2, i2) =
      comment_step-close (λ (d : ℕ). comment_loop fuel d) (suc depth) cs rd1 r i1 in
    let up : suc depth - 1 ≡ depth = omega arith in
    (rd2, rw (comment_loop_round fuel depth, e1) (rw up at e2), i2)

next-split :
    (k : Comment) (rest : List ℕ) → (cs : List ℕ) × (comment_text k ++ b'|' ∷ rest ≡ next k ∷ cs)
unfolding comment_text next
next-split blank rest = (_, refl)
next-split (byte c k) rest = (_, refl)
next-split (nested inner k) rest = (_, refl)

-- The loop steps over the contents of a comment, before a `|`, and stays on its level.
comment_loop-Leaves :
    (k : Comment) (fuel depth : ℕ) (rest : List ℕ) (rd : Reader) (r : Runtime)
    → IsPlain k
    → Input rd (comment_text k ++ b'|' ∷ rest)
    → (rd' : Reader) × (comment_loop (rounds k + fuel) (suc depth) rd r
        ≡ comment_loop fuel (suc depth) rd' r)
      × Input rd' (b'|' ∷ rest)
unfolding comment_text
comment_loop-Leaves blank fuel depth rest rd r h i =
    let same : 0 + fuel ≡ fuel = omega arith in (rd, rw same refl, i)
comment_loop-Leaves (byte c k) fuel depth rest rd r (no_open, no_close, h) i =
    let count : suc (rounds k) + fuel ≡ suc (rounds k + fuel) = omega arith in
    let (rd1, e1, i1) = reader_get-Leaves rd r (c ∷ (comment_text k ++ b'|' ∷ rest)) i in
    let (cs, split) = next-split k rest in
    let (rd2, e2, i2) =
      comment_step-plain (λ (d : ℕ). comment_loop (rounds k + fuel) d) (suc depth) c (next k) cs rd1
        r no_open no_close (subst (λ (l : List ℕ). Input rd1 l) split i1) in
    let (rd3, e3, i3) =
      comment_loop-Leaves k fuel depth rest rd2 r h
        (subst (λ (l : List ℕ). Input rd2 l) (sym split) i2) in
    (rd3, rw (count, comment_loop_round (rounds k + fuel) depth, e1) (e2 ∙ e3), i3)
comment_loop-Leaves (nested inner k) fuel depth rest rd r (hi, h) i =
    let more = rounds k + fuel in
    let count : suc (rounds inner + suc (rounds k)) + fuel ≡ suc (rounds inner + suc more) =
      omega arith in
    let after = b'#' ∷ (comment_text k ++ b'|' ∷ rest) in
    let joined = append_assoc (comment_text inner) (b'|' ∷ b'#' ∷ comment_text k) (b'|' ∷ rest) in
    let (rd1, e1, i1) = reader_get-Leaves rd r _ i in
    let again = λ (d : ℕ). comment_loop (rounds inner + suc more) d in
    let (rd2, e2, i2) =
      comment_step-open again (suc depth) (comment_text inner ++ b'|' ∷ after) rd1 r
        (subst (λ (l : List ℕ). Input rd1 (b'|' ∷ l)) joined i1) in
    let down : suc depth + 1 ≡ suc (suc depth) = omega arith in
    let (rd3, e3, i3) = comment_loop-Leaves inner (suc more) (suc depth) after rd2 r hi i2 in
    let (rd4, e4, i4) = close_comment more (suc depth) (comment_text k ++ b'|' ∷ rest) rd3 r i3 in
    let (rd5, e5, i5) = comment_loop-Leaves k fuel depth rest rd4 r h i4 in
    (
      rd5,
      rw (count, comment_loop_round (rounds inner + suc more) depth, e1)
          ((rw down at e2) ∙ e3 ∙ e4 ∙ e5),
      i5,
    )

rounds-length : (k : Comment) → rounds k ≤ length (comment_text k)
unfolding comment_text
rounds-length blank = omega arith
rounds-length (byte c k) = omega (arith, rounds-length k)
rounds-length (nested inner k) = omega (
  arith,
  rounds-length inner,
  rounds-length k,
  length-append (comment_text inner) (b'|' ∷ b'#' ∷ comment_text k),
)

comment_loop_end : (fuel : ℕ) → comment_loop (suc fuel) 0 ≡ pure tt
unfolding comment_loop
comment_loop_end fuel = refl

comment_end-Leaves :
    (k : Comment) (left : ℕ) (rest : List ℕ) (rd : Reader) (r : Runtime)
    → IsPlain k
    → Input rd (comment_text k ++ b'|' ∷ b'#' ∷ rest)
    → Leaves (comment_loop (rounds k + suc (suc left)) 1) rd r tt rest r
comment_end-Leaves k left rest rd r h i =
    let (rd1, e1, i1) = comment_loop-Leaves k (suc (suc left)) 0 (b'#' ∷ rest) rd r h i in
    let (rd2, e2, i2) = close_comment (suc left) 0 rest rd1 r i1 in
    (rd2, e1 ∙ e2 ∙ rw (comment_loop_end left) refl, i2)

-- A comment's contents and its `|#` are stepped over.
skip_block_comment-Leaves :
    (k : Comment) (fuel : ℕ) (rest : List ℕ) (rd : Reader) (r : Runtime)
    → IsPlain k
    → length (comment_text k) + 1 < fuel
    → Input rd (comment_text k ++ b'|' ∷ b'#' ∷ rest)
    → Leaves (skip_block_comment fuel) rd r tt rest r
unfolding skip_block_comment
skip_block_comment-Leaves k fuel rest rd r h enough i =
    let left = fuel - (rounds k + 2) in
    let count : fuel ≡ rounds k + suc (suc left) = omega (arith, rounds-length k) in
    subst (λ (f : ℕ). Leaves (comment_loop f 1) rd r tt rest r) (sym count)
      (comment_end-Leaves k left rest rd r h i)

datum_step-hash :
    (read : Reading Mobj) (fuel : ℕ)
    → datum_step read fuel (some b'#') ≡ (reader_get >>= hash_step read fuel)
unfolding datum_step read_hash
datum_step-hash read fuel = refl

hash_step-bar :
    (read : Reading Mobj) (fuel : ℕ)
    → hash_step read fuel (some b'|') ≡ (skip_block_comment fuel >> read)
unfolding hash_step
hash_step-bar read fuel = refl

-- The datum behind a block comment is read in its place.
read_datum-comment :
    (k : Comment) (fuel : ℕ) (rest : List ℕ) (rd : Reader) (r : Runtime)
    → IsPlain k
    → length (comment_text k) < fuel
    → Input rd (b'#' ∷ b'|' ∷ (comment_text k ++ b'|' ∷ b'#' ∷ rest))
    → (rd' : Reader) × (read_datum (suc (suc fuel)) rd r ≡ read_datum (suc fuel) rd' r)
      × Input rd' rest
unfolding isspace
read_datum-comment k fuel rest rd r h enough i =
    let (rd1, e1, i1) = read_datum_round fuel b'#' _ rd r refl i in
    let (rd2, e2, i2) = reader_get-Leaves rd1 r _ i1 in
    let (rd3, e3, i3) = skip_block_comment-Leaves k (suc fuel) rest rd2 r h (omega arith) i2 in
    let read = read_datum (suc fuel) in
    (
      rd3,
      e1 ∙ rw (datum_step-hash read (suc fuel), e2) (rw (hash_step-bar read (suc fuel), e3) refl),
      i3,
    )

-- Mread takes a readable datum's text behind a block comment, and before a delimiter or EOF, for the same
-- as without the comment: it returns a value, with new pairs, that stands for the datum, leaves what
-- follows the text, and keeps the intern table well formed and every object that was there. The contents
-- of the comment are bytes and block comments, nested to any depth, such that no byte `#` stands before
-- a `|`, the one at the end of the comment included, and no byte `|` before a `#`, the one of a nested
-- comment included. Fuel above the length of both and four is enough.
pub mread-comment :
    (k : Comment) (d : Datum) (fuel : ℕ) (rest : List ℕ) (rd : Reader) (r : Runtime)
    → IsTable r
    → IsPlain k
    → IsReadable d
    → is_delimiter (head? rest) ≡ true
    → length (comment_text k) + length (render false d) + 4 < fuel
    → Input rd (b'#' ∷ b'|' ∷ (comment_text k ++ b'|' ∷ b'#' ∷ (render false d ++ rest)))
    → ReadsAs (mread fuel) rd r d rest
unfolding mread
mread-comment k d zero rest rd r table hk h stop enough i = absurd (omega arith)
mread-comment k d (suc zero) rest rd r table hk h stop enough i = absurd (omega arith)
mread-comment k d (suc (suc fuel)) rest rd r table hk h stop enough i =
    let (rd1, e1, i1) =
      read_datum-comment k fuel (render false d ++ rest) rd r hk (omega arith) i in
    ReadsAs-by e1 (mread-render d (suc fuel) rest rd1 r table h stop (omega arith) i1)
