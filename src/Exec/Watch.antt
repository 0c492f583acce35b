-- ===== src/Exec/Watch.antt =====
-- What is watched of a message while its matches are executed: any statement that the operations of
-- maildir.c keep is kept by matches_exec.
use mdsort.Base.{ℕ, true, false, [], ◌∷◌, ◌≡◌, Bytes}
use mdsort.Environment.{Env}
use mdsort.Expr.{ExprType}
use mdsort.Match.{MatchList}
use mdsort.Message.{Message}
use mdsort.Message.File.{message_write}
use mdsort.Maildir.{Maildir, Os, World}
use mdsort.Maildir.Move.{Outcome, maildir_unlink, maildir_move, maildir_write}

-- What holds after an operation: of the world after an error, else of the message in its directory.
abbrev pub Left : (Bytes → Message → World → Type 0) → (World → Type 0) → Bytes → Outcome → Type 0
Left At After d (true, m, w) = After w
Left At After d (false, m, w) = At d m w

-- A statement on a message in a directory and one on the world, that the operations keep. The
-- removal of the message keeps them if `Discards` holds.
pub record Watch (os : Os) (env : Env) : Type 1 where
  pub At : Bytes → Message → World → Type 0
  pub After : World → Type 0
  pub Discards : Type 0
  pub stays :
      (d : Bytes) (m n : Message) (w w' : World)
      → n.name ≡ m.name
      → (message_write n).0 ≡ (message_write m).0
      → w'.files ≡ w.files
      → At d m w
      → At d n w'
  pub rests : (w w' : World) → w'.files ≡ w.files → After w → After w'
  pub settles : (d : Bytes) (m : Message) (w : World) → At d m w → After w
  pub moves :
      (src dst : Maildir) (m : Message) (w : World)
      → At src.path m w
      → Left At After dst.path (maildir_move os src dst m env w)
  pub writes :
      (md : Maildir) (m : Message) (w : World)
      → At md.path m w
      → Left At After md.path (maildir_write os md m env w)
  pub discards :
      Discards
      → (md : Maildir) (m : Message) (w : World) → At md.path m w
      → Left At After md.path
          ((maildir_unlink os md m.name w).0, m, (maildir_unlink os md m.name w).1)

-- The matches that change files are about the message at `i`; removing it is left to `D`.
abbrev pub Relevant : Type 0 → ℕ → ExprType → ℕ → Type 0
Relevant D i ExprType.flag j = j ≡ i
Relevant D i ExprType.flags j = j ≡ i
Relevant D i ExprType.move j = j ≡ i
Relevant D i ExprType.label j = j ≡ i
Relevant D i ExprType.add_header j = j ≡ i
Relevant D i ExprType.discard j = (j ≡ i) × D
Relevant D i _ j = Unit

abbrev pub Concerns : Type 0 → ℕ → MatchList → Type 0
Concerns D i [] = Unit
Concerns D i (mh ∷ ml) = Relevant D i mh.type mh.msg × Concerns D i ml
