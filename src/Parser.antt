-- ===== src/Parser.antt =====
-- src/parser.rs, src/parser/expression.rs and src/parser/limits.rs.
pub mod Limits
pub mod State
pub mod Types
pub mod Expression
pub mod Statement
pub mod Declaration
pub mod File
pub mod Safe
pub mod Total
