-- ===== src/Reader/Input.antt =====
-- src/read.c: what a reader has before it, and the two functions that all others read by.
use native.Mathlib.Nat.{add-zero}
use minim.Base.{
  ℕ, suc, ◌+◌, ◌<◌, ◌≡◌, refl, ◌∙◌, Option, none, some, List, [], ◌∷◌, get_elem?, length, arith,
}
use minim.Runtime.{Runtime}
use minim.Reader.{
  Source, string_source, file_source, Reader, Reading, got, reader_get, reader_peek, fetch, get_by,
  peek_by,
}

-- The source gives these bytes, and then EOF at each call.
abbrev pub Gives : Source → List ℕ → Type 0
Gives (string_source buf pos len) cs =
    (pos + length cs ≡ len) × ((i : ℕ) → i < length cs → get_elem? buf (pos + i) ≡ get_elem? cs i)
Gives (file_source fgetc calls) cs = (i : ℕ) → fgetc (calls + i) ≡ get_elem? cs i

abbrev pub PeekedThen : Option ℕ → Source → List ℕ → Type 0
PeekedThen none s cs = Gives s cs
PeekedThen (some c) s cs = (ds : List ℕ) × (cs ≡ c ∷ ds) × Gives s ds

-- These are the bytes that the reader is yet to return, a peeked one included.
pub record Input (rd : Reader) (cs : List ℕ) : Type 0 where
  pub ahead : PeekedThen rd.peeked rd.source cs

-- The command returns `a`, leaves the runtime in `s`, and has these bytes before it.
abbrev pub Leaves {ℓ} : {A : Type ℓ} → Reading A → Reader → Runtime → A → List ℕ → Runtime → Type ℓ
Leaves m rd r a cs s = (rd' : Reader) × (m rd r ≡ got a rd' s) × Input rd' cs

abbrev pub head? : List ℕ → Option ℕ
head? [] = none
head? (c ∷ cs) = some c

abbrev pub behind : List ℕ → List ℕ
behind [] = []
behind (c ∷ cs) = cs

get_elem?-zero : (cs : List ℕ) → get_elem? cs 0 ≡ head? cs
get_elem?-zero [] = refl
get_elem?-zero (c ∷ cs) = refl

get_elem?-suc : (cs : List ℕ) (i : ℕ) → get_elem? cs (suc i) ≡ get_elem? (behind cs) i
get_elem?-suc [] i = refl
get_elem?-suc (c ∷ cs) i = refl

-- What a read of the source gives: the next byte, or EOF.
record Fetched (o : Option ℕ) (m : Reading (Option ℕ)) (rd : Reader) (r : Runtime) (cs : List ℕ)
    : Type 0 where
  next : Reader
  done : m rd r ≡ got (head? cs) next r
  nothing_peeked : next.peeked ≡ o
  gives : Gives next.source (behind cs)

fetch-Gives :
    (s : Source) (rd : Reader) (r : Runtime) (cs : List ℕ)
    → rd.source ≡ s
    → Gives s cs
    → Fetched rd.peeked (fetch s) rd r cs
fetch-Gives (string_source buf pos len) rd r [] e (n, g) = record {
  next = rd;
  done = ground arith;
  nothing_peeked = refl;
  gives = rw e (n, g);
}
fetch-Gives (string_source buf pos len) rd r (c ∷ cs) e (n, g) =
    let here : get_elem? buf pos ≡ some c = rw (← add-zero pos) (g 0 (omega arith)) in
    record {
      next = record rd { source = string_source buf (suc pos) len };
      done = ground (arith, here);
      nothing_peeked = refl;
      gives = (
        omega arith,
        λ i h.
            let next : suc pos + i ≡ pos + suc i = omega arith in rw next (g (suc i) (omega arith)),
      );
    }
fetch-Gives (file_source f n) rd r cs e g =
    let here : f n ≡ head? cs = rw (← add-zero n) (g 0 ∙ get_elem?-zero cs) in
    record {
      next = record rd { source = file_source f (suc n) };
      done = rw here refl;
      nothing_peeked = refl;
      gives = λ i.
          let next : suc n + i ≡ n + suc i = omega arith in
          rw next (g (suc i) ∙ get_elem?-suc cs i);
    }

get_by-Leaves :
    (o : Option ℕ) (rd : Reader) (r : Runtime) (cs : List ℕ)
    → rd.peeked ≡ o
    → PeekedThen o rd.source cs
    → Leaves (get_by o) rd r (head? cs) (behind cs) r
get_by-Leaves none rd r cs e g =
    let t = fetch-Gives rd.source rd r cs refl g in
    (t.next, t.done, record { ahead = rw (t.nothing_peeked ∙ e) t.gives })
get_by-Leaves (some c) rd r cs e (ds, split, g) =
    rw split (record rd { peeked = none }, refl, record { ahead = g })

-- reader_get returns the next byte, or EOF, and steps over it.
pub reader_get-Leaves :
    (rd : Reader) (r : Runtime) (cs : List ℕ)
    → Input rd cs
    → Leaves reader_get rd r (head? cs) (behind cs) r
unfolding reader_get
reader_get-Leaves rd r cs i = get_by-Leaves rd.peeked rd r cs refl i.ahead

peek_by-Leaves :
    (o : Option ℕ) (rd : Reader) (r : Runtime) (cs : List ℕ)
    → rd.peeked ≡ o
    → PeekedThen o rd.source cs
    → Leaves (peek_by o) rd r (head? cs) cs r
peek_by-Leaves none rd r cs e g =
    let t = fetch-Gives rd.source rd r cs refl g in
    (record t.next { peeked = head? cs }, rw t.done refl, record { ahead = again _ cs t.gives })
  where
    again : (s : Source) (cs : List ℕ) → Gives s (behind cs) → PeekedThen (head? cs) s cs
    again s [] g = g
    again s (c ∷ cs) g = (cs, refl, g)
peek_by-Leaves (some c) rd r cs e (ds, split, g) =
    rw split (rd, refl, record { ahead = rw e (ds, refl, g) })

-- reader_peek returns the next byte, or EOF, and stays before it.
pub reader_peek-Leaves :
    (rd : Reader) (r : Runtime) (cs : List ℕ)
    → Input rd cs
    → Leaves reader_peek rd r (head? cs) cs r
unfolding reader_peek
reader_peek-Leaves rd r cs i = peek_by-Leaves rd.peeked rd r cs refl i.ahead
