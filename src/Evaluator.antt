-- ===== src/Evaluator.antt =====
-- The evaluation of benchmark logs, evobench-tools/src/evaluator.
pub mod LogMessage
pub mod LogDataTree
