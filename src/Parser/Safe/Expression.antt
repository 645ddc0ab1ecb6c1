-- ===== src/Parser/Safe/Expression.antt =====
-- The expression parser is safe, and what it returns lies within the nesting limit.
mod Levels
pub mod Primary
pub mod Recursion
