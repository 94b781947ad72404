-- ===== src/Eval.antt =====
-- internal/eval: the batch evaluator.
pub mod Batch
pub mod Leaf
pub mod Reduce
pub mod Clause
pub mod Schedule
pub mod Evidence
pub mod Predicate
