-- ===== src/Parse/Syntax.antt =====
-- The syntax tree of a configuration: a constructor for each production with code of its own. A number in
-- front is the line that the code reads of the lexer.
use mdsort.Base.{ℕ, Bool, List, Bytes}
use mdsort.Expr.{DateCmp, DateField}
use mdsort.Expr.Setters.{PatternFlags}

-- `strings`: a block of strings, or one.
pub data Strings : Type 0 where
  stringblock : List Bytes → Strings
  one_string : Bytes → Strings

-- `expr1` and `expr3`
pub data Condition : Type 0 where
  both either : ℕ → Condition → Condition → Condition
  attached negated : ℕ → Condition → Condition
  in_body : ℕ → Bytes → PatternFlags → Condition
  in_header : ℕ → Strings → Bytes → PatternFlags → Condition
  dated : ℕ → DateField → DateCmp → ℕ → ℕ → Condition
  is_new is_old all_messages : ℕ → Condition
  isdirectory : ℕ → Bytes → Condition
  command_run : ℕ → Strings → Condition
  parenthesized : Condition → Condition

-- `exec_flag`
pub data ExecFlag : Type 0 where
  flag_stdin flag_body : ExecFlag

mutual
  -- `expraction`
  pub data Action : Type 0 where
    break_off discarded passed rejected : ℕ → Action
    moved : ℕ → Bytes → Action
    flagged : ℕ → Bool → Action
    flags_set : ℕ → Bytes → Action
    labelled : ℕ → Strings → Action
    executed : ℕ → List ExecFlag → Strings → Action
    on_attachments : ℕ → Block → Action
    header_added : ℕ → Bytes → Bytes → Action

  -- `expractions`
  pub data Actions : Type 0 where
    no_actions : Actions
    more_actions : ℕ → Actions → Action → Actions

  -- `expr2`
  pub data Consequence : Type 0 where
    actions : Actions → Consequence
    nested : Block → Consequence

  -- `expr`
  pub data Rule : Type 0 where
    rule : ℕ → Condition → Consequence → Rule

  -- `exprs`: after a syntax error what came before it is dropped.
  pub data RuleList : Type 0 where
    no_rules bad_rules : RuleList
    more_rules : ℕ → RuleList → Rule → RuleList

  -- `exprblock`
  pub data Block : Type 0 where
    block : ℕ → RuleList → Block

-- `maildir_paths`
pub data Paths : Type 0 where
  maildirs : Strings → Paths
  standard_input : Paths

-- `macro`, `maildir` and `error` of `grammar`.
pub data Statement : Type 0 where
  definition : ℕ → Bytes → Bytes → Statement
  maildir : Paths → Block → Statement
  bad_statement : Statement
