-- ===== src/Parse/Grammar.antt =====
-- The code of the productions of `grammar`, and config_list_parse.

use mdsort.Base.{
  ℕ, zero, suc, Bool, false, not, ◌&&◌, ◌||◌, Option, List, [], ◌∷◌, ◌++◌, Bytes, codes, ltb, ◌==◌,
}
use mdsort.Macro.{
  ctx_default, MacroList, Macro, MacroError, err_none, err_ctx, err_exist, err_sticky,
  macros_insert, macros_unused,
}
use mdsort.Expr.{ExprType, Expr, expr_count, expr_count_actions}
use mdsort.Main.{Config, isstdin}
use mdsort.Parse.{Parse, ◌>>=◌, pure, yyerror, yyerror_if}
use mdsort.Parse.Syntax.{
  Paths, maildirs, standard_input, Statement, definition, maildir, bad_statement,
}
use mdsort.Parse.Expand.{expand, expandstrings}
use mdsort.Parse.Conditions.{strings_of}
use mdsort.Parse.Actions.{parse_block}

unfoldable pub macro_defined : MacroError × MacroList → Parse Unit
unfolding yyerror
macro_defined (err_none, l) p = (tt, record p { macros = l })
macro_defined (err_ctx, l) p = yyerror (record p { macros = l })
macro_defined (err_exist, l) p = yyerror (record p { macros = l })
macro_defined (err_sticky, l) p = (tt, record p { macros = l })

-- The paths that are the standard input, each of which is an error.
unfoldable pub stdin_paths : List Bytes → Parse Unit
unfolding yyerror_if isstdin
stdin_paths [] = pure tt
stdin_paths (path ∷ paths) = do e ← yyerror_if (isstdin path); stdin_paths paths

unfoldable pub stdin_defined : List Config → Parse Unit
unfolding stdin_paths
stdin_defined [] = pure tt
stdin_defined (conf ∷ cl) = do e ← stdin_paths conf.paths; stdin_defined cl

-- Some path is not the standard input.
unfoldable pub outside_stdin : List Bytes → Bool
unfolding isstdin
outside_stdin [] = false
outside_stdin (path ∷ paths) = not (isstdin path) || outside_stdin paths

unfoldable pub config_list_append : Config → Parse Unit
config_list_append conf p = (tt, record p { cl = p.cl ++ conf ∷ [] })

-- `macros_validate`
unfoldable pub macros_validate : List Macro → Parse Unit
unfolding yyerror
macros_validate [] = pure tt
macros_validate (mc ∷ unused) = do e ← yyerror; macros_validate unused

-- The errors that yacc and the lexer count before the code of a statement.
unfoldable pub errors_before : ℕ → Parse Unit
unfolding yyerror
errors_before zero = pure tt
errors_before (suc n) = do e ← yyerror; errors_before n

module _ (home : Bytes) (regcomp : Bytes → Bool → Option ℕ) where
  unfoldable pub parse_paths : Paths → Parse (List Bytes)
  unfolding strings_of expandstrings stdin_defined
  parse_paths (maildirs strs) = expandstrings home ctx_default (strings_of strs)
  parse_paths standard_input = do e ← (λ p. stdin_defined p.cl p); pure (codes "/dev/stdin" ∷ [])

  -- The checks of a maildir behind the parsing of its block.
  unfoldable pub maildir_checks : List Bytes → Expr → Parse Unit
  unfolding yyerror_if outside_stdin expr_count expr_count_actions
  maildir_checks paths expr p =
      (do
        e ← yyerror_if (p.error == 0 && (expr_count_actions expr == 0))
        yyerror_if (outside_stdin paths && ltb 0 (expr_count expr ExprType.reject)))
        p

  unfoldable pub parse_statement : Statement → Parse Unit
  unfolding expand macro_defined macros_insert parse_paths parse_block maildir_checks
      config_list_append
  parse_statement (definition lno name str) = do
    value ← expand home ctx_default str
    λ p. macro_defined (macros_insert p.macros name value false lno) p
  parse_statement (maildir strs b) = do
    paths ← parse_paths strs
    expr ← parse_block home regcomp b
    e ← maildir_checks paths expr
    config_list_append (record { paths = paths; expr = expr })
  parse_statement bad_statement = pure tt

  unfoldable pub parse_statements : List (ℕ × Statement) → Parse Unit
  unfolding errors_before parse_statement
  parse_statements [] = pure tt
  parse_statements ((n, s) ∷ l) = do e ← errors_before n; d ← parse_statement s; parse_statements l

  -- `config_list_parse` behind the opening of the file; the errors are what it returns.
  unfoldable pub config_list_parse : List (ℕ × Statement) → Parse Unit
  unfolding parse_statements macros_validate macros_unused
  config_list_parse l = do e ← parse_statements l; λ p. macros_validate (macros_unused p.macros) p
