-- ===== src/Main/Delivery.antt =====
-- What becomes of the files when a message is handled: its own and the others.
use mdsort.Base.{ℕ, some, List, [], ◌∷◌, ◌≡◌, sym, ap, subst, ◌∙◌, arith, Bytes, inl, inr, ◌⊎◌}
use mdsort.Environment.{Env}
use mdsort.Expr.{ExprType, Expr, expr_count}
use mdsort.Message.{Message}
use mdsort.Message.File.{message_init, message_parse, message_write}
use mdsort.Match.{MatchList}
use mdsort.Eval.State.{ExecStatus, System}
use mdsort.Eval.Confined.{AllAdmitted}
use mdsort.Eval.Confined.Accepted.{Accepted, Accepted-Fits}
use mdsort.Maildir.{Maildir, Entry, Os, World}
use mdsort.Maildir.Calls.{same_file}
use mdsort.Maildir.Files.{Has, Apart, if-cases}
use mdsort.Exec.{
  Input, ExecState, ExecCode, exec_success, exec_rejected, exec_error, exec_gone, matches_exec,
}
use mdsort.Exec.Places.{Placed}
use mdsort.Exec.Watch.{Relevant, Concerns}
use mdsort.Exec.Safe.{Somewhere, matches_exec-Safe, matches_exec-Untouched}
use mdsort.Main.Handle.{Run, with_error, after_exec, message_executed, handle_message}
use mdsort.Main.Laws.{Holding}
use mdsort.Main.Evaluated.{Handling, handle_message-admitted}

same_content : (a b : Bytes) → some a ≡ some b → a ≡ b
same_content a b e = cc

admitted-Concerns :
    (D : Type 0) (i : ℕ) (ml : MatchList) → AllAdmitted (Relevant D i) ml → Concerns D i ml
admitted-Concerns D i [] h = tt
admitted-Concerns D i (m ∷ ml) h = (h.0, admitted-Concerns D i ml h.1)

-- A parsed message has the name of its file.
message_parse-name :
    (dir path : Bytes) (fd : ℕ) (content : Bytes) (m : Message)
    → message_parse dir path fd content ≡ some m
    → m.name ≡ path
unfolding message_parse message_init
message_parse-name dir path fd content m e = ground (arith, e)

-- Of the run after its matches are executed only the world matters.
after_exec-world :
    (P : World → Type 0) (s : Run) (r : ExecCode × ExecState)
    → P r.1.world
    → Holding (λ x. P x.world) (after_exec s r)
unfolding after_exec with_error
after_exec-world P s (exec_success, e) h = h
after_exec-world P s (exec_rejected, e) h = h
after_exec-world P s (exec_error, e) h = h
after_exec-world P s (exec_gone, e) h = h

module _ {Tm : Type 0} (sys : System Tm) (os : Os) (run : ℕ → List Bytes → Input → ExecStatus)
    (env : Env) (md : Maildir) (me : Entry) (st : Run) where
  module _ (d n t : Bytes) where
    abbrev leaves_others :
        me.dir ≡ md.path
        → Placed md
        → Apart md.path me.path d n
        → Has d n t st.world
        → Handling sys os run env md me st
    unfolding message_executed
    leaves_others same placed apart has = record {
      Admits = Relevant Unit 0;
      Ran = λ ran. Unit;
      runs = λ msg ran argv a r. tt;
      I = λ s. Has d n t s.world;
      quits = λ s f r a. ap (λ x. x d n) f ∙ has;
      executes = λ s fd content msg ml store f r a c p admitted mail.
          if-cases env.dryrun (Holding (λ x. Has d n t x.world)) (ap (λ x. x d n) f ∙ has) (
            after_exec-world (Has d n t) s (matches_exec os run env ml md store s.world) (
              matches_exec-Untouched os run env ml md store 0 mail.0 d n t s.world
                (admitted-Concerns Unit 0 ml admitted) placed mail.1
                (ap (λ x. same_file md.path x d n)
                    (mail.2.0 ∙ message_parse-name me.dir me.path fd content msg p)
                  ∙ apart)
                (ap (λ x. x d n) f ∙ has)));
    }

    -- If the expression is one that the parser accepts, with no action but exec on attachments, and
    -- the message is in the maildir that is walked, then every file other than that of the message
    -- has the same content when the message has been handled, whatever the expression is, however
    -- the handling ends, and whichever calls and commands fail.
    pub handle_message-Untouched :
        (expr : Expr)
        → Accepted expr
        → me.dir ≡ md.path
        → Placed md
        → Apart md.path me.path d n
        → Has d n t st.world
        → Holding (λ s. Has d n t s.world) (handle_message sys os run env expr md me st)
    unfolding leaves_others
    handle_message-Untouched expr a same placed apart has =
        handle_message-admitted sys os run env md me st (leaves_others same placed apart has) expr
          (Accepted-Fits Unit 0 expr a (λ p. tt)) tt

  -- Some file has the text of the message, or one that `message_write` makes of a message with the
  -- same body.
  abbrev pub Delivered : Bytes → World → Type 0
  Delivered text w =
      ((p : Bytes) × (n : Bytes) × Has p n text w)
      ⊎ ((fd : ℕ) × (msg : Message) × (m : Message) × (message_parse me.dir me.path fd text
            ≡ some msg)
          × (m.body ≡ msg.body)
          × (p : Bytes) × (n : Bytes) × Has p n ((message_write m).0) w)

  module _ (text : Bytes) where
    -- What is executed is about the message, as parsed or with other headers.
    delivered :
        (fd : ℕ) (content : Bytes) (msg m : Message) (w : World)
        → content ≡ text
        → message_parse me.dir me.path fd content ≡ some msg
        → m.body ≡ msg.body
        → Somewhere text ((message_write m).0) w
        → Delivered text w
    delivered fd content msg m w e p b (d, n, inl h) = inl (d, n, h)
    delivered fd content msg m w e p b (d, n, inr h) =
        inr (fd, msg, m, subst (λ v. message_parse me.dir me.path fd v ≡ some msg) e p, b, d, n, h)

    abbrev delivers :
        me.dir ≡ md.path
        → Placed md
        → Has me.dir me.path text st.world
        → Handling sys os run env md me st
    unfolding message_executed
    delivers same placed has = record {
      Admits = Relevant ⊥ 0;
      Ran = λ ran. Unit;
      runs = λ msg ran argv a r. tt;
      I = λ s. Delivered text s.world;
      quits = λ s f r a. inl (me.dir, me.path, ap (λ x. x me.dir me.path) f ∙ has);
      executes = λ s fd content msg ml store f r a c p admitted mail.
          let here : Has me.dir me.path text s.world = ap (λ x. x me.dir me.path) f ∙ has in
          let name : mail.0.name ≡ me.path =
            mail.2.0 ∙ message_parse-name me.dir me.path fd content msg p in
          let there : Has md.path mail.0.name text s.world =
            subst (λ x. Has x mail.0.name text s.world) same
              (subst (λ x. Has me.dir x text s.world) (sym name) here) in
          let equal : content ≡ text = same_content content text (sym c ∙ has) in
          if-cases env.dryrun (Holding (λ x. Delivered text x.world)) (inl (me.dir, me.path, here))
            (after_exec-world (Delivered text) s (matches_exec os run env ml md store s.world) (
              delivered fd content msg mail.0 (matches_exec os run env ml md store s.world).1.world
                equal p mail.2.1
                (matches_exec-Safe os run env ml md store 0 mail.0 text s.world
                  (admitted-Concerns ⊥ 0 ml admitted) placed mail.1 there)));
    }

    -- If the expression is one that the parser accepts and has no discard, and the message is in the
    -- maildir that is walked, then when the message has been handled some file has its text, or the
    -- text that `message_write` makes of a message with the same body, however the handling ends, and
    -- whichever calls and commands fail.
    pub handle_message-Delivered :
        (expr : Expr)
        → Accepted expr
        → expr_count expr ExprType.discard ≡ 0
        → me.dir ≡ md.path
        → Placed md
        → Has me.dir me.path text st.world
        → Holding (λ s. Delivered text s.world) (handle_message sys os run env expr md me st)
    unfolding delivers
    handle_message-Delivered expr a d same placed has =
        handle_message-admitted sys os run env md me st (delivers same placed has) expr
          (Accepted-Fits ⊥ 0 expr a (λ p. ground (arith, d, p))) tt
