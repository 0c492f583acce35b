-- ===== src/Parse.antt =====
-- parse.y: the parser of the configuration. The productions are a syntax tree, made by yacc, and the
-- code of each production is a step on the state of the parser.
pub mod Lexer
pub mod Syntax
pub mod Expand
pub mod Conditions
pub mod Actions
pub mod Grammar
pub mod Checks
pub mod Accepts
pub mod Blocks
pub mod Configs
pub mod Delivery
use mdsort.Base.{ℕ, ◌+◌, Bool, true, false, List, [], ◌∷◌, if◌then◌else◌}
use mdsort.Macro.{MacroList}
use mdsort.Main.{Config}

-- `parser_state`, and the lists of its configuration: the errors are counted. The line of an
-- expression stands in the syntax tree.
pub record Parser : Type 0 where
  pub cl : List Config
  pub macros : MacroList
  pub error : ℕ

-- A step of the parser.
abbrev pub Parse : Type 0 → Type 0
Parse A = Parser → A × Parser

infixl 5 ◌>>=◌
unfoldable pub ◌>>=◌ : {A B : Type 0} → Parse A → (A → Parse B) → Parse B
(f >>= k) p = k (f p).0 (f p).1

unfoldable pub pure : {A : Type 0} → A → Parse A
pure a p = (a, p)

-- `yyerror` and `yyerror_at_line`, which print and count.
unfoldable pub yyerror : Parse Unit
yyerror p = (tt, record p { error = p.error + 1 })

-- An error under a condition.
unfoldable pub yyerror_if : Bool → Parse Unit
unfolding yyerror pure
yyerror_if true = yyerror
yyerror_if false = pure tt
