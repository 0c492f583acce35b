-- ===== src/Parse/Delivery.antt =====
-- The handling of messages by the configurations that the parser accepts.
use mdsort.Base.{ℕ, zero, suc, Bool, Option, some, List, [], ◌∷◌, ◌≡◌, Bytes, get_elem?, All}
use mdsort.Environment.{Env}
use mdsort.Expr.{ExprType, expr_count}
use mdsort.Eval.State.{ExecStatus, System}
use mdsort.Maildir.{Maildir, Entry, Os}
use mdsort.Maildir.Files.{Has, Apart}
use mdsort.Exec.{Input}
use mdsort.Exec.Places.{Placed}
use mdsort.Main.{Config}
use mdsort.Main.Handle.{Run, handle_message}
use mdsort.Main.Laws.{Holding}
use mdsort.Main.Delivery.{Delivered, handle_message-Untouched, handle_message-Delivered}
use mdsort.Parse.{Parser}
use mdsort.Parse.Syntax.{Statement}
use mdsort.Parse.Grammar.{config_list_parse}
use mdsort.Parse.Configs.{Sound, config_list_parse-Sound}

All-get :
    (cl : List Config) (i : ℕ) (conf : Config)
    → All Sound cl
    → get_elem? cl i ≡ some conf
    → Sound conf
All-get [] i conf h e = cc
All-get (x ∷ cl) zero conf h e = (let same : x ≡ conf = cc in rw⁻¹ same h.0)
All-get (x ∷ cl) (suc i) conf h e = All-get cl i conf h.1 e

module _ (home : Bytes) (regcomp : Bytes → Bool → Option ℕ) (l : List (ℕ × Statement)) (p : Parser)
    {Tm : Type 0} (sys : System Tm) (os : Os) (run : ℕ → List Bytes → Input → ExecStatus)
    (env : Env) (md : Maildir) (me : Entry) (st : Run) where
  -- If a file is parsed without an error into configurations, with none before, and a message in the
  -- directory of the maildir that is walked is handled by one of them, then every other file has the
  -- same content afterwards, however the handling ends, and whichever calls and commands fail.
  pub configured-Untouched :
      (i : ℕ) (conf : Config) (d n t : Bytes)
      → p.cl ≡ []
      → (config_list_parse home regcomp l p).1.error ≡ 0
      → get_elem? (config_list_parse home regcomp l p).1.cl i ≡ some conf
      → me.dir ≡ md.path
      → Placed md
      → Apart md.path me.path d n
      → Has d n t st.world
      → Holding (λ s. Has d n t s.world) (handle_message sys os run env conf.expr md me st)
  configured-Untouched i conf d n t e z g same placed apart has =
      let sound = All-get _ i conf (config_list_parse-Sound home regcomp l p e z).0 g in
      handle_message-Untouched sys os run env md me st d n t conf.expr sound.0.0 same placed apart
        has

  -- If a file is parsed without an error into configurations, with none before, and a message in the
  -- directory of the maildir that is walked is handled by one of them that has no discard, then
  -- afterwards some file has the text of the message, or the text that `message_write` makes of a
  -- message with the same body, however the handling ends, and whichever calls and commands fail.
  pub configured-Delivered :
      (i : ℕ) (conf : Config) (text : Bytes)
      → p.cl ≡ []
      → (config_list_parse home regcomp l p).1.error ≡ 0
      → get_elem? (config_list_parse home regcomp l p).1.cl i ≡ some conf
      → expr_count conf.expr ExprType.discard ≡ 0
      → me.dir ≡ md.path
      → Placed md
      → Has me.dir me.path text st.world
      → Holding
          (λ s. Delivered sys os run env md me st text s.world)
          (handle_message sys os run env conf.expr md me st)
  configured-Delivered i conf text e z g dis same placed has =
      let sound = All-get _ i conf (config_list_parse-Sound home regcomp l p e z).0 g in
      handle_message-Delivered sys os run env md me st text conf.expr sound.0.0 dis same placed has
