-- ===== src/Sql.antt =====
-- src/sql: the front end, the planner, filters and the executor.
pub mod Ast
pub mod Lexer
pub mod Words
pub mod Parser
pub mod Plan
pub mod Filter
pub mod Lookup
pub mod Executor
mod Examples
