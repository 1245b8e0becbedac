-- ===== src/Repl.antt =====
-- src/main.c: the loop that reads, evaluates and writes, behind Minit. What goes to stderr, the banner,
-- the prompt and the messages of errors, is left out; `out` is what has gone to stdout. Merror comes back
-- to the `setjmp` of the loop, with the reader and the runtime as they were at the error.
pub mod Literals
pub mod Echo
use minim.Base.{ℕ, zero, suc, Bool, not, Option, List, [], ◌∷◌, ◌++◌, if◌then◌else◌}
use minim.Object.{Mobj, mvoid}
use minim.Runtime.{Runtime, Cmd, Run, PrimFn, ok, error, fault, out_of_fuel}
use minim.Eval.Apply.{meval}
use minim.Prims.Lists.{meofp}
use minim.Prims.Table.{minit}
use minim.Shutdown.{mshutdown}
use minim.Writer.{DoubleText, mwrite}
use minim.Reader.{Reader, Outcome, got, failed, crashed, unfinished, mreader_init_file}
use minim.Reader.Datum.{mread}

-- `closed` is the end, at EOF.
pub data Session : Type 0 where
  closed : (out : List ℕ) → Reader → Runtime → Session
  broken running : Session

abbrev pub mvoidp : Mobj → Bool
mvoidp mvoid = Bool.true
mvoidp _ = Bool.false

module _ (dt : DoubleText) (call_prim : PrimFn → Mobj → Cmd Mobj) where
  -- The next round, with what has been put out.
  abbrev pub Next : Type 0
  Next = List ℕ → Reader → Runtime → Session

  unfoldable pub after_write : Next → List ℕ → Reader → Run (List ℕ) → Session
  after_write again out rd (ok s r) = again (out ++ (s ++ b'\n' ∷ [])) rd r
  after_write again out rd (error e r) = again out rd r
  after_write again out rd fault = broken
  after_write again out rd out_of_fuel = running

  unfoldable pub after_eval : Next → ℕ → List ℕ → Reader → Run Mobj → Session
  after_eval again fuel out rd (ok v r) =
      if not (mvoidp v) then after_write again out rd (mwrite dt fuel v r) else again out rd r
  after_eval again fuel out rd (error e r) = again out rd r
  after_eval again fuel out rd fault = broken
  after_eval again fuel out rd out_of_fuel = running

  unfoldable pub after_read : Next → ℕ → List ℕ → Outcome Mobj → Session
  after_read again fuel out (got expr rd r) =
      if meofp expr
      then closed out rd r
      else after_eval again fuel out rd (meval call_prim fuel expr r)
  after_read again fuel out (failed e rd r) = again out rd r
  after_read again fuel out crashed = broken
  after_read again fuel out unfinished = running

  unfoldable pub repl : ℕ → List ℕ → Reader → Runtime → Session
  repl zero out rd r = running
  repl (suc fuel) out rd r =
      let again = λ (o : List ℕ) (rd' : Reader) (r' : Runtime). repl fuel o rd' r' in
      after_read again fuel out (mread fuel rd r)

  unfoldable pub started : ℕ → Reader → Run (Unit {0}) → Session
  started fuel rd (ok _ r) = repl fuel [] rd r
  started fuel rd (error e r) = broken
  started fuel rd fault = broken
  started fuel rd out_of_fuel = running

  unfoldable pub shut : List ℕ → Reader → Run (Unit {0}) → Session
  shut out rd (ok _ r) = closed out rd r
  shut out rd (error e r) = broken
  shut out rd fault = broken
  shut out rd out_of_fuel = running

  -- Mshutdown, behind the loop.
  unfoldable pub ended : Session → Session
  ended (closed out rd r) = shut out rd (mshutdown r)
  ended broken = broken
  ended running = running

  -- Minit, the loop over stdin, and Mshutdown.
  unfoldable pub main : ℕ → (ℕ → Option ℕ) → Runtime → Session
  main fuel stdin r = ended (started fuel (mreader_init_file stdin 0) (minit r))
