-- ===== src/Tests/Disk.antt =====
-- Maildirs with two messages, a system that carries out every call, and a configuration.
use mdsort.Base.{
  ◌==◌, ℕ, true, false, Option, none, some, List, [], ◌∷◌, Bytes, codes, if◌then◌else◌,
}
use mdsort.Expr.{ExprType, node}
use mdsort.Match.{Match, match_alloc}
use mdsort.Eval.State.{ExecStatus, exit_zero}
use mdsort.Macro.{ctx_default, macros_alloc}
use mdsort.Maildir.{
  dirent, dt_reg, subdir_new, subdir_cur, Maildir, success, cross_device, Os, World,
}
use mdsort.Maildir.Calls.{same_file}
use mdsort.Exec.{Input}
use mdsort.Main.{Config}
use mdsort.Main.Handle.{Run}
use mdsort.Main.Options.{Options}
use mdsort.Tests.Samples.{env, attrs, leaf, to_user}

-- /m/new holds the message of the samples and another one.
unfoldable pub files : Bytes → Bytes → Option Bytes
unfolding same_file
files d n =
    if same_file d n (codes "/m/new") (codes "1")
    then some (codes "To: user\n\nhello")
    else if same_file d n (codes "/m/new") (codes "2")
    then some (codes "other")
    else none

abbrev pub world : World
world = record { files = files; calls = 0 }

abbrev pub disk : Os
disk = record {
  answer = λ n. success;
  listing = λ n path. dirent (codes "1") dt_reg ∷ [];
  is_file = λ n path name. true;
  random = λ n. 7;
  damaged = λ n text. [];
  accepted = λ n buf. some buf;
  temp = λ n template. template;
  input = some (codes "To: user") ∷ [];
  rounds = 3;
}

-- Every rename leads to another file system.
abbrev pub two_disks : Os
two_disks = record disk { answer = λ n. if n == 2 then cross_device else success }

abbrev pub inbox : Maildir
inbox = record {
  root = codes "/m";
  path = codes "/m/new";
  dir = some [];
  subdir = subdir_new;
  walk = true;
  stdin = false;
}

abbrev pub archive : Maildir
archive = record {
  root = codes "/a";
  path = codes "/a/new";
  dir = some [];
  subdir = subdir_new;
  walk = false;
  stdin = false;
}

abbrev pub seen_box : Maildir
seen_box = record archive { path = codes "/a/cur"; subdir = subdir_cur }

abbrev pub text : Bytes
text = codes "To: user\n\nhello"

-- label, and move "/a".
abbrev pub label_and_move : List Match
label_and_move =
    match_alloc 0 ExprType.label attrs 0
    ∷ record (match_alloc 1 ExprType.move attrs 0) { path = codes "/a/new" }
    ∷ []

abbrev pub run_exec : ℕ → List Bytes → Input → ExecStatus
run_exec n argv input = exit_zero

-- maildir "/m" { match header "To" /user/ discard }
abbrev pub configs : List Config
configs =
    record {
      paths = codes "/m" ∷ [];
      expr =
          node ExprType.block attrs (node ExprType.and attrs to_user (leaf ExprType.discard attrs))
            (leaf ExprType.all attrs);
    }
    ∷ []

abbrev pub start_run : Run
start_run = record {
  world = world;
  tz_var = none;
  asked = [];
  ran = [];
  error = false;
  reject = false;
}

abbrev pub options : Options
options = record { env = env; macros = macros_alloc ctx_default; log_level = 0 }
