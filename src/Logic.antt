-- ===== src/Logic.antt =====
-- The expressions of logic blocks, drmemd/src/logic.
pub mod Expr
pub mod World
pub mod Calendar
pub mod Ops
pub mod Eval
pub mod Optimize
pub mod Reactive
pub mod Filter
pub mod Node
