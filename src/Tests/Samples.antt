-- ===== src/Tests/Samples.antt =====
-- A message, a system and expressions for the tests.
use mdsort.Base.{ℕ, Bool, false, none, some, [], ◌∷◌, Bytes, codes, length, bytes_eq, if◌then◌else◌}
use mdsort.Base.Int.{pos}
use mdsort.DateTime.{Clock, tz_utc}
use mdsort.Message.{Message, zero_flags}
use mdsort.Expr.{ExprType, ExprAttrs, Expr, null, node, calloc_attrs}
use mdsort.Match.{Match, match_alloc}
use mdsort.Eval.State.{RegResult, reg_ok, reg_nomatch, System, exit_zero, Env, EvalState}

-- A regular expression matches the string that it is.
abbrev pub literal : Bytes → Bool → Bytes → RegResult
literal pattern icase str =
    if bytes_eq pattern str then reg_ok (some (0, length str) ∷ []) else reg_nomatch

abbrev clock : Clock ℕ
clock = record {
  zero_tm = 0;
  strptime = λ format str tm. (tm, none);
  mktime = λ tz tm. pos tm;
  gmtoff = λ tz. some (pos 0);
  strftime = λ tz t. none;
  setenv_fails = λ name. false;
  unsetenv_fails = false;
}

abbrev pub system : System ℕ
system = record {
  regexec = literal;
  run = λ ran argv. exit_zero;
  stat = λ ran path. none;
  clock = clock;
}

abbrev pub env : Env
env = record {
  now = pos 0;
  tz = record { state = tz_utc; buf = []; offset = pos 0 };
  dryrun = false;
  home = codes "/home/user";
  tmpdir = codes "/tmp";
  hostname = codes "host";
  confpath = none;
  pid = pos 1;
  syntax = false;
  is_stdin = false;
}

-- A message with one header, in /m/new.
abbrev pub message : Message
message = record {
  path = codes "/m/new/1";
  name = codes "1";
  body = codes "hello";
  buf_dec = none;
  fd = none;
  is_attachment = false;
  mflags = zero_flags;
  headers = record { id = 0; key = codes "To"; val = codes "user" } ∷ [];
  attachments = none;
}

abbrev pub start : EvalState
start = record { ml = []; store = message ∷ []; next = 0; ran = []; tz_var = none }

abbrev pub attrs : ExprAttrs
attrs = calloc_attrs 1

abbrev pub leaf : ExprType → ExprAttrs → Expr
leaf type a = node type a null null

-- header "To" /user/
abbrev pub to_user : Expr
to_user = leaf ExprType.header (record attrs {
  strings = codes "To" ∷ [];
  re = some (record {
    pattern = codes "user";
    icase = false;
    nmatches = 1;
    lcase = false;
    ucase = false;
  });
})

-- ! (header "To" /user/) or new
abbrev pub not_user_or_new : Expr
not_user_or_new =
    node ExprType.or attrs (node ExprType.neg attrs to_user null) (leaf ExprType.new attrs)

-- (header "To" /user/) and break
abbrev pub user_break : Expr
user_break = node ExprType.and attrs to_user (leaf ExprType.break attrs)

-- (header "To" /user/) and discard and pass
abbrev pub user_pass : Expr
user_pass =
    node ExprType.and attrs to_user
      (node ExprType.and attrs (leaf ExprType.discard attrs) (leaf ExprType.pass attrs))

-- move "/a", label, move "/b": the matches of three actions.
abbrev pub move_a : Match
move_a = record (match_alloc 0 ExprType.move attrs 0) { maildir = codes "/a"; subdir = codes "new" }

abbrev pub a_label : Match
a_label = match_alloc 1 ExprType.label attrs 0

abbrev pub move_b : Match
move_b = record (match_alloc 2 ExprType.move attrs 0) { maildir = codes "/b"; subdir = codes "new" }

abbrev pub flag_cur : Match
flag_cur = record (match_alloc 3 ExprType.flag attrs 0) { subdir = codes "cur" }
