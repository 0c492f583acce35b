-- ===== src/Expr.antt =====
-- expr.h and the constructors and counters of expr.c: the expression tree that a configuration
-- is parsed into. A pointer that may be NULL is `null`; the strings, the pattern and the members
-- of the union are one record, of which each type reads its own.
pub mod Setters
use mdsort.Base.{
  ℕ, ◌+◌, Bool, true, false, Option, none, some, List, [], Bytes, ◌==◌, if◌then◌else◌,
}
use mdsort.Base.Int.{ℤ, pos}

pub data ExprType : Type 0 where
  block and or neg match all attachment body date header new old stat command : ExprType
  move flag flags discard break label pass reject exec attachment_block add_header : ExprType

-- The enumeration's values.
unfoldable pub type_value : ExprType → ℕ
type_value block = 0
type_value and = 1
type_value or = 2
type_value neg = 3
type_value match = 4
type_value all = 5
type_value attachment = 6
type_value body = 7
type_value date = 8
type_value header = 9
type_value new = 10
type_value old = 11
type_value stat = 12
type_value command = 13
type_value move = 14
type_value flag = 15
type_value flags = 16
type_value discard = 17
type_value break = 18
type_value label = 19
type_value pass = 20
type_value reject = 21
type_value exec = 22
type_value attachment_block = 23
type_value add_header = 24

unfoldable pub type_eq : ExprType → ExprType → Bool
unfolding type_value
type_eq a b = type_value a == type_value b

-- `ex_flags`: the four EXPR_FLAG_ bits.
pub record ExprFlags : Type 0 where
  pub is_action : Bool
  pub is_inspect : Bool
  pub is_interpolate : Bool
  pub is_path : Bool

abbrev no_flags : ExprFlags
no_flags = record { is_action = false; is_inspect = false; is_interpolate = false; is_path = false }

abbrev action_flags : Bool → ExprFlags
action_flags path = record no_flags { is_action = true; is_path = path }

abbrev inspect_flags : Bool → ExprFlags
inspect_flags interpolate = record no_flags { is_inspect = true; is_interpolate = interpolate }

-- What `expr_alloc` stores in `ex_flags` for each type.
unfoldable pub ex_flags : ExprType → ExprFlags
ex_flags body = inspect_flags true
ex_flags date = inspect_flags false
ex_flags header = inspect_flags true
ex_flags move = action_flags true
ex_flags flag = action_flags true
ex_flags flags = action_flags true
ex_flags discard = action_flags false
ex_flags break = action_flags false
ex_flags label = action_flags true
ex_flags pass = action_flags false
ex_flags reject = action_flags false
ex_flags exec = action_flags false
ex_flags attachment_block = action_flags false
ex_flags add_header = action_flags true
ex_flags _ = no_flags

-- The functions that `ex_inspect` may point to.
pub data InspectFn : Type 0 where
  inspect_move inspect_discard inspect_break inspect_label inspect_pass : InspectFn
  inspect_reject inspect_exec inspect_attachment_block inspect_add_header : InspectFn

-- What `expr_alloc` stores in `ex_inspect` for each type; `none` is NULL.
unfoldable pub ex_inspect : ExprType → Option InspectFn
ex_inspect move = some inspect_move
ex_inspect flag = some inspect_move
ex_inspect flags = some inspect_move
ex_inspect discard = some inspect_discard
ex_inspect break = some inspect_break
ex_inspect label = some inspect_label
ex_inspect pass = some inspect_pass
ex_inspect reject = some inspect_reject
ex_inspect exec = some inspect_exec
ex_inspect attachment_block = some inspect_attachment_block
ex_inspect add_header = some inspect_add_header
ex_inspect _ = none

-- `struct expr_regex`: the source of the compiled pattern, REG_ICASE among its flags, the number
-- of subexpressions plus one, and the propagated flags.
pub record ExprRegex : Type 0 where
  pub pattern : Bytes
  pub icase : Bool
  pub nmatches : ℕ
  pub lcase : Bool
  pub ucase : Bool

pub data DateCmp : Type 0 where
  cmp_lt cmp_gt : DateCmp

pub data DateField : Type 0 where
  field_header field_access field_modified field_created : DateField

-- The members of `struct expr` other than its type and its children.
pub record ExprAttrs : Type 0 where
  pub lno : ℕ
  pub strings : List Bytes
  pub re : Option ExprRegex
  pub date_cmp : DateCmp
  pub date_field : DateField
  pub date_age : ℤ
  pub exec_stdin : Bool
  pub exec_body : Bool
  pub header_key : Bytes
  pub header_val : Bytes

pub data Expr : Type 0 where
  null : Expr
  node : ExprType → ExprAttrs → Expr → Expr → Expr

-- The zeroed members of arena_calloc(3), with the line number.
abbrev pub calloc_attrs : ℕ → ExprAttrs
calloc_attrs lno = record {
  lno = lno;
  strings = [];
  re = none;
  date_cmp = cmp_lt;
  date_field = field_header;
  date_age = pos 0;
  exec_stdin = false;
  exec_body = false;
  header_key = [];
  header_val = [];
}

unfoldable pub expr_alloc : ExprType → ℕ → Expr → Expr → Expr
expr_alloc type lno lhs rhs = node type (calloc_attrs lno) lhs rhs

-- The number of expressions with the given type.
unfoldable pub expr_count : Expr → ExprType → ℕ
unfolding type_eq
expr_count null type = 0
expr_count (node t a lhs rhs) type =
    (if type_eq t type then 1 else 0) + expr_count lhs type + expr_count rhs type

-- The number of actions.
unfoldable pub expr_count_actions : Expr → ℕ
unfolding ex_flags
expr_count_actions null = 0
expr_count_actions (node t a lhs rhs) =
    (if (ex_flags t).is_action then 1 else 0) + expr_count_actions lhs + expr_count_actions rhs
