-- ===== src/Tests/Frontend.antt =====
-- A run of crates/cielo-frontend/src/lexer.rs.
use cielo.Prelude.{ℕ, Option, none, arith}
use cielo.Prelude.Classes.{Text, codes}
use cielo.Base.Interner.{empty_interner}
use cielo.Frontend.Lexer.Run.{lex}
use cielo.Frontend.Lexer.Total.{Complete, lex_total}

abbrev no_floats : Text → Option ℕ
no_floats text = none

abbrev source : Text
source = codes "let x1 = 42 -- the end"

lex_total_example : Complete source 0 (lex no_floats source 0 empty_interner)
lex_total_example = lex_total no_floats source 0 empty_interner (omega arith) (omega arith)
