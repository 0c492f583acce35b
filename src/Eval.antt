-- ===== src/Eval.antt =====
-- `expr_eval` of expr.c: the evaluation of an expression on a message, which fills the match list.
-- The C library and the processes that are run are the parameter `sys`; commands see the list of
-- those that ran before them.
pub mod State
pub mod Combine
pub mod Leaves
pub mod Effects
pub mod Node
pub mod Growth
pub mod Confined
pub mod Meaning
pub mod Block
pub mod Matcher
