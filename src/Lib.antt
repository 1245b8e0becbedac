-- ===== src/Lib.antt =====
-- Minim2: a Scheme runtime in C, modelled over an explicit heap.
--
-- The program's parts and the modules that model them (paths from the repository's root):
--   include/minim.h, include/gc.h   tagged 64-bit words, accessors, sizes
--       Object: values (one constructor for each primary tag) and heap objects; sizes
--       Word: the words themselves, with `encode` from values to words and the tests on words
--       Runtime: the globals, the accessors and mutators, and the outcomes of a C function
--   src/alloc.c    Alloc: the constructors (Mcons is mcons, Mkont_if is mkont_if, and so on)
--   src/symbol.c   Symbol: the intern table (Mintern is mintern, symbol_init)
--   src/equal.c    Equal: Mequal and Mhash (mequal, mhash)
--   src/eval.c     Eval.Env (list_length, top_env_*, env_lookup, env_set), Eval.Step (step_eval, one
--       function for each arm), Eval.Apply (step_apply, one function for each frame, Meval is meval)
--       Eval.Reference is the meaning of the forms without effect, as a relation over the heap;
--       Eval.Frames, Eval.Rounds, Eval.Returns, Eval.Scope, Eval.Refinement and Eval.Meval are about the
--       machine on those forms, Eval.Malformed about the errors of the special forms, Eval.Closure and
--       Eval.Call about the call of a closure, Eval.Start about the special symbols
--   src/gc.c       Gc: do_collect and its parts; Gc.Grow: gc_init, gc_collect, gc_alloc over `mmap`
--       Gc.Invariant, Gc.Bytes, Gc.Copy, Gc.Forward, Gc.Scan, Gc.Round and Gc.Collect are about one
--       collection, Gc.Graph, Gc.Paths and Gc.Observe about what the program sees after it,
--       Gc.Contents, Gc.Images and Gc.Arranged about the new space as the heap of the next, Gc.Mapping,
--       Gc.Growth, Gc.Room and Gc.Start about the growth of the spaces
--   src/prims.c    Prims: the loops along the arguments; Prims.Lists and Prims.Numbers: the primitives;
--       Prims.Table: their registration, eval_init, Minit behind gc_init, and call_prim from the names of
--       the functions to the functions; Prims.Walk, Prims.Arithmetic, Prims.Compare and Prims.Division
--       are about the numbers, Prims.Vector about `vector`, and Prims.Entry, Prims.Registered and
--       Prims.Start about the registration and Minit
--   src/read.c     Reader: mreader, reader_get, reader_peek and the lexical predicates; Reader.Tokens: white
--       space, comments, numbers and symbols; Reader.Literals: read_string, read_char; Reader.Datum: lists,
--       vectors, the # syntax, read_datum and Mread (mread); ParseError: the errors
--       Reader.Input is about the characters ahead of a reader, Reader.Lexing, Reader.Digits,
--       Reader.Atoms, Reader.Strings and Reader.Chars about tokens and literals as the writer writes them,
--       Reader.Heap, Reader.Lists and Reader.Cells about a list under construction, and Reader.Dispatch,
--       Reader.Leaf, Reader.Hash, Reader.Starts, Reader.Ends and Reader.RoundTrip about whole data,
--       Reader.Comments about block comments and Reader.Unclosed about a string without an end
--   src/write.c    Writer: Mwrite and Mdisplay (mwrite, mdisplay); Writer.Data: the data with a source-level
--       syntax and their text
--   src/system.c   Shutdown: Mshutdown (mshutdown) with eval_shutdown, symbol_shutdown and the end of the
--       heap in gc_shutdown; Minit stands in Prims.Table
--   src/main.c     Repl: Minit, the loop of main and Mshutdown (main, repl); Repl.Literals and Repl.Echo are about literals
-- The reader calls Mintern and the constructors; the REPL calls the reader, Meval and the writer; the evaluator calls the
-- constructors, the environments and the primitives; a primitive calls Mequal and Mhash.
--
-- A value is a data type, since every word that the program holds is the encoding of one; the
-- secondary tag stands in the heap object, as in the program. `Runtime` is the state: the heap is a
-- function from byte addresses to objects, and the globals are fields. A C function is a command: it
-- takes the state and returns a value and the new state (`ok`), raises (`error`, for Merror and its
-- longjmp), reads or writes outside an object (`fault`, undefined behaviour in C), or runs out of
-- fuel, which stands for a loop that does not end.
--
-- Fuel: a loop along a chain of cells is given one more round than the allocation pointer. The cells
-- of a chain without a cycle have different addresses below that pointer, so such a loop ends. `mequal`,
-- `mhash` and `meval` take their fuel as an argument: on circular data or a program that loops the C
-- functions do not return.
--
-- `do_collect` is given more fuel than the bytes of the objects: each round of its scan loop passes an
-- object. The growth loop of `gc_collect` is given two rounds, and a first growth is always enough.
--
-- The reader's loops take fuel too, since a file may not end. A call of read_datum and each round of its
-- loops have one unit less; two units more than the bytes of a datum's text are enough for it.
--
-- Not modelled: collections while the other parts run. Alloc's gc_alloc takes the next free bytes and
-- never moves an object, so the shadow stack that protects C locals across a collection has no
-- counterpart there; Gc models the collector over its own state, with the roots as two lists of the
-- values in the protected slots, each slot protected once. MINIM_GC_STRESS, the arrays
-- behind the roots and the recorded tags are left out, with what gc_shutdown and
-- symbol_shutdown do to malloc'd memory, and so is the text of error messages. Doubles are
-- their 64 bits, and their operations a parameter; so is `mmap` for the collector, and the C functions
-- behind the primitives for the evaluator. What goes to
-- stderr is left out. A file that is read is the sequence of what `fgetc` returns, and what is put out
-- is a list of bytes, with the text of doubles as a parameter.
pub mod Base
pub mod Object
pub mod ParseError
pub mod Runtime
pub mod Writer
pub mod Reader
pub mod Shutdown
pub mod Repl
pub mod Alloc
pub mod Eval
pub mod Symbol
mod Tests
pub mod Equal
pub mod Word
pub mod Gc
pub mod Prims
