-- ===== src/Tests/Parsing.antt =====
-- Runs of the parser, and instances of the theorems on it and on the whole program.
use mdsort.Base.{
  ℕ, true, false, Bool, Option, none, some, List, [], ◌∷◌, ◌++◌, ◌≡◌, ◌≢◌, refl, arith, Bytes,
  codes, get_elem?, All, before,
}
use mdsort.Base.Int.{pos}
use mdsort.Expr.{ExprType, null, node, calloc_attrs, expr_count}
use mdsort.Macro.{macro_context, macros_find, ctx_default, macros_alloc, macros_unused}
use mdsort.Interpolate.{digits_value}
use mdsort.Util.{pathjoin}
use mdsort.Maildir.{Entry, subdir_name}
use mdsort.Maildir.Calls.{same_file}
use mdsort.Maildir.Files.{Has}
use mdsort.Main.{Config, config_has_exec}
use mdsort.Main.Options.{opt_dryrun, opt_conf}
use mdsort.Main.Handle.{handle_message}
use mdsort.Main.Walk.{run_configs}
use mdsort.Main.Laws.{Holding, HoldingAny}
use mdsort.Main.DryRun.{Unchanged}
use mdsort.Main.Delivery.{Delivered}
use mdsort.Main.Pledge.{SameCommands, run_configs-quiet}
use mdsort.Parse.{Parser, ◌>>=◌}
use mdsort.Parse.Lexer.{
  string, scalar, ambiguous_scalar, lex_text, lex_number, yylex1, lexed_string, lexed_pattern,
}
use mdsort.Parse.Lexer.Quoting.{quoted, TokenPlain, yylex1-quoted, lex_text-EndsPlain}
use mdsort.Parse.Lexer.Numbers.{NumberOf, lex_number-NumberOf}
use mdsort.Parse.Syntax.{
  one_string, in_header, more_actions, no_actions, moved, actions, rule, more_rules, no_rules,
  block, maildirs, Statement, maildir,
}
use mdsort.Parse.Expand.{expandmacros}
use mdsort.Parse.Expand.Pieces.{Piece, plain, reference, written, meant, expandmacros-meant}
use mdsort.Parse.Grammar.{config_list_parse}
use mdsort.Parse.Configs.{Sound, config_list_parse-Sound}
use mdsort.Parse.Delivery.{configured-Untouched, configured-Delivered}
use mdsort.Program.{Answers, Files, run_started, main}
use mdsort.Program.Dry.{Leaves, main-Unchanged}
use mdsort.Program.Refusing.{Configured, Succeeds, main-Succeeds}
use mdsort.Tests.Samples.{env, system}
use mdsort.Tests.Disk.{world, files, disk, inbox, run_exec, configs, start_run}

abbrev home : Bytes
home = codes "/home/user"

abbrev regcomp : Bytes → Bool → Option ℕ
regcomp pattern icase = some 0

-- maildir "/m" { match header "To" /user/ move "~/a" }
abbrev statements : List (ℕ × Statement)
statements =
    (
      0,
      maildir (maildirs (one_string (codes "/m"))) (
          block 1 (
            more_rules 1 no_rules (
              rule 1
                (in_header 1 (one_string (codes "To")) (codes "user")
                  (record { icase = false; lcase = false; ucase = false }))
                (actions (more_actions 1 no_actions (moved 1 (codes "~/a"))))))),
    )
    ∷ []

abbrev before_parsing : Parser
before_parsing = record { cl = []; macros = macros_alloc ctx_default; error = 0 }

-- What the statements give.
abbrev parsed_config : Config
parsed_config = record {
  paths = codes "/m" ∷ [];
  expr =
      node ExprType.block (calloc_attrs 1)
        (node ExprType.match (calloc_attrs 1)
          (node ExprType.header
            (record (calloc_attrs 1) {
              strings = codes "To" ∷ [];
              re = some (record {
                pattern = codes "user";
                icase = false;
                nmatches = 1;
                lcase = false;
                ucase = false;
              });
            })
            null null)
          (node ExprType.move (record (calloc_attrs 1) { strings = codes "/home/user/a" ∷ [] }) null
            null))
        null;
}

parsed :
    get_elem? (config_list_parse home regcomp statements before_parsing).1.cl 0 ≡ some parsed_config
unfolding config_list_parse ◌>>=◌ macros_alloc
parsed = refl

accepted : (config_list_parse home regcomp statements before_parsing).1.error ≡ 0
unfolding config_list_parse ◌>>=◌ macros_alloc
accepted = refl

abbrev first : Entry
first = record { dir = codes "/m/new"; path = codes "1" }

configured-Delivered_example :
    Holding
      (λ s.
        Delivered system disk run_exec env inbox first start_run
          (codes "To: user\n\nhello")
          s.world)
      (handle_message system disk run_exec env parsed_config.expr inbox first start_run)
unfolding expr_count pathjoin subdir_name files
configured-Delivered_example =
    configured-Delivered home regcomp statements before_parsing system disk run_exec env inbox first
      start_run 0 parsed_config (codes "To: user\n\nhello") refl accepted parsed refl refl refl refl

configured-Untouched_example :
    Holding
      (λ s. Has (codes "/m/new") (codes "2") (codes "other") s.world)
      (handle_message system disk run_exec env parsed_config.expr inbox first start_run)
unfolding pathjoin subdir_name same_file files
configured-Untouched_example =
    configured-Untouched home regcomp statements before_parsing system disk run_exec env inbox first
      start_run 0 parsed_config (codes "/m/new") (codes "2") (codes "other") refl accepted parsed
      refl refl refl refl

config_list_parse-Sound_example :
    All Sound (config_list_parse home regcomp statements before_parsing).1.cl
    × (macros_unused (config_list_parse home regcomp statements before_parsing).1.macros ≡ [])
config_list_parse-Sound_example =
    config_list_parse-Sound home regcomp statements before_parsing refl accepted

run_configs-quiet_example :
    HoldingAny (SameCommands start_run) (run_configs system disk run_exec env 9 configs start_run)
unfolding config_has_exec
run_configs-quiet_example = run_configs-quiet system disk run_exec env start_run 9 configs refl

abbrev answers : Answers
answers = record {
  hostname = some (codes "host.example");
  home = some home;
  tmpdir = none;
  tz = none;
  pw_dir = none;
  path_tmp = codes "/tmp/";
  now = pos 0;
  gmtoff = some (pos 0);
  pid = pos 1;
}

abbrev config_files : Files
config_files path = some statements

main-Unchanged_example : Leaves (Unchanged (run_started answers world)) (
    main system disk run_exec regcomp config_files answers 9 world
      (opt_conf (codes "c") ∷ opt_dryrun ∷ [])
      [])
main-Unchanged_example =
    main-Unchanged system disk run_exec regcomp config_files answers 9 world
      (opt_conf (codes "c") ∷ opt_dryrun ∷ []) refl

main-Succeeds_example :
    Succeeds (Configured regcomp config_files answers (opt_conf (codes "c") ∷ opt_dryrun ∷ []) []) (
      main system disk run_exec regcomp config_files answers 9 world
        (opt_conf (codes "c") ∷ opt_dryrun ∷ [])
        [])
main-Succeeds_example =
    main-Succeeds system disk run_exec regcomp config_files answers 9 world
      (opt_conf (codes "c") ∷ opt_dryrun ∷ []) []

-- a"b
abbrev marked : Bytes
marked = 97 ∷ 34 ∷ 98 ∷ []

yylex1-quoted_example :
    yylex1 1024 false false false (34 ∷ (quoted 34 marked ++ 34 ∷ codes " x"))
    ≡ record { token = string marked; errors = 0; rest = codes " x" }
yylex1-quoted_example =
    yylex1-quoted 1024 false false marked (codes " x") (omega arith) (omega arith)
      (λ e. ground (arith, e))
      ((λ e. ground (arith, e)), ((λ e. ground (arith, e)), ((λ e. ground (arith, e)), tt)))

-- \/b/
abbrev pattern_text : Bytes
pattern_text = 92 ∷ 47 ∷ 98 ∷ 47 ∷ []

pattern_text-whole : All (λ c. c ≢ 0) pattern_text
pattern_text-whole = (
  (λ e. ground (arith, e)),
  ((λ e. ground (arith, e)), ((λ e. ground (arith, e)), ((λ e. ground (arith, e)), tt))),
)

lex_text-EndsPlain_example :
    TokenPlain (lexed_string (lex_text 1024 b'/' false [] pattern_text)).token
    × TokenPlain (lexed_pattern (lex_text 1024 b'/' false [] pattern_text)).token
lex_text-EndsPlain_example =
    lex_text-EndsPlain 1024 b'/' pattern_text (λ e. ground (arith, e)) pattern_text-whole

lex_number-NumberOf_example :
    NumberOf
      (digits_value 0 (codes "5000000000 seconds"))
      (lex_number false 0 (codes "5000000000 seconds"))
lex_number-NumberOf_example = lex_number-NumberOf (codes "5000000000 seconds")

-- A NUL in the file ends the string.
cut_at_nul : (yylex1 1024 false false false (34 ∷ 97 ∷ 0 ∷ 98 ∷ 34 ∷ [])).token ≡ string (codes "a")
unfolding yylex1 before
cut_at_nul = refl

-- A scalar that is cut short must stand for one unit only.
short_scalar : (yylex1 1024 true false false (codes "mi ")).token ≡ scalar 60
unfolding yylex1
short_scalar = refl

ambiguous :
    yylex1 1024 true false false (codes "m ")
    ≡ record { token = ambiguous_scalar; errors = 1; rest = codes " " }
unfolding yylex1
ambiguous = refl

-- A pattern whose last byte is a backslash cannot be written, doubled or not.
no_last_backslash : (yylex1 1024 false true false (47 ∷ 92 ∷ 92 ∷ 47 ∷ [])).errors ≡ 1
unfolding yylex1
no_last_backslash = refl

-- "a${b}" where b is "c".
abbrev pieces : List Piece
pieces = plain (codes "a") ∷ reference (codes "b") ∷ []

abbrev defining : Parser
defining = record before_parsing {
  macros = record {
    ctx = ctx_default;
    macros =
        record { name = codes "b"; value = codes "c"; refs = 0; defs = 1; lno = 1; sticky = false }
        ∷ [];
  };
}

expandmacros-meant_example :
    ((expandmacros ctx_default (written pieces) defining).0 ≡ meant defining.macros pieces)
    × ((expandmacros ctx_default (written pieces) defining).1.error ≡ 0)
unfolding macro_context macros_find
expandmacros-meant_example =
    expandmacros-meant ctx_default pieces defining
      ((λ e. ground (arith, e), tt), (((λ e. ground (arith, e), tt), refl, λ e. cc), tt))
