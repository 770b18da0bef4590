-- ===== src/Frontend/Lexer.antt =====
-- crates/cielo-frontend/src/lexer.rs: the lexer. Its state is a record that the functions pass on,
-- and `none` is the failed assertion of an id.
pub mod Token
pub mod Scan
pub mod Literals
pub mod Run
pub mod Moves
pub mod Words
pub mod Numbers
pub mod Rounds
pub mod Total
