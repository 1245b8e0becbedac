-- ===== src/Eval.antt =====
-- src/eval.c: the evaluator, a state machine over continuation frames on the heap.
pub mod Env
pub mod Step
pub mod Apply
pub mod Frames
pub mod Reference
pub mod Rounds
pub mod Scope
pub mod Returns
pub mod Refinement
pub mod Meval
pub mod Malformed
pub mod Closure
pub mod Call
pub mod Start
