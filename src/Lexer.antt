-- ===== src/Lexer.antt =====
-- src/lexer.rs: the lexer's state machine, over the bytes of a source text.
-- A source is a valid UTF-8 `&str`; a character is a lead byte with its continuation bytes.
pub mod Token
pub mod Number
pub mod Scan
pub mod Run
pub mod Spelling
pub mod Reading
mod Spans
pub mod Sound
mod Literals
pub mod Total
pub mod Order
