-- ===== src/Parser/Safe/File.antt =====
-- The parsers of a whole file in src/parser.rs are safe: import headers, declarations, programs.
mod Imports
mod Additions
mod Run
pub use Imports.*
pub use Run.*
