-- ===== src/Lexer.antt =====
-- parse/lexer.go: the scanner, which turns the bytes of a chunk into tokens.
pub mod Chars
pub mod Parts
pub mod Tokens
pub mod Total
mod Lines
pub mod Quoting
mod Words
mod Tests
