-- ===== src/Parser/Safe/Primitives.antt =====
-- The primitive operations of the parser's state in src/parser.rs are safe.
mod Tokens
mod Words
mod Scopes
pub use Tokens.*
pub use Words.*
pub use Scopes.*
