-- ===== src/Frontend.antt =====
-- crates/cielo-frontend: from source text to tokens.
pub mod Lexer
