-- ===== src/Eval/Confined.antt =====
-- What an expression may add to the match list: the types that are admitted on each message bound the
-- matches, and the commands that are run.
pub mod Lists
pub mod Leaves
pub mod Matchers
pub mod Combined
pub mod Nodes
pub mod Interpolated
pub mod Accepted
use mdsort.Base.{ℕ, List, [], ◌∷◌, ◌++◌, Bytes, All}
use mdsort.Expr.{ExprType, ExprAttrs, Expr, null, node}
use mdsort.Match.{Match, MatchList}
use mdsort.Message.Body.{Store}
use mdsort.Message.BodyKeeps.{Keeps}
use mdsort.Eval.State.{Ev, EvalState, Eval}

-- Whether a type is admitted on the message at an address; what is kept of the commands that were
-- run, if commands are admitted; and the messages before.
pub record Rules : Type 1 where
  pub Admits : ExprType → ℕ → Type 0
  pub Ran : List (List Bytes) → Type 0
  pub before : Store
  pub runs :
      (msg : ℕ) (ran : List (List Bytes)) (argv : List Bytes)
      → Admits ExprType.command msg
      → Ran ran
      → Ran (ran ++ argv ∷ [])

-- Every expression is of a type that is admitted on the message that it is evaluated on: the
-- expressions of attachments are evaluated on any message.
abbrev pub Fits : (ExprType → ℕ → Type 0) → Expr → ℕ → Type 0
Fits Admits null msg = Unit
Fits Admits (node ExprType.attachment attrs l r) msg = (h : ℕ) → Fits Admits l h
Fits Admits (node ExprType.attachment_block attrs l r) msg = (h : ℕ) → Fits Admits l h
Fits Admits (node t attrs l r) msg = Admits t msg × Fits Admits l msg × Fits Admits r msg

-- Every match is of a type that is admitted on its message.
abbrev pub AllAdmitted : (ExprType → ℕ → Type 0) → MatchList → Type 0
AllAdmitted Admits ml = All (λ m. Admits m.type m.msg) ml

-- What evaluation keeps.
abbrev pub Confined : Rules → EvalState → Type 0
Confined R s = AllAdmitted R.Admits s.ml × R.Ran s.ran × Keeps R.before s.store

-- The evaluation on a message keeps it.
abbrev pub Confines : Rules → (EvalState → Ev × EvalState) → Type 0
Confines R f = (s : EvalState) → Confined R s → Confined R (f s).1
