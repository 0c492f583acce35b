-- ===== src/Exec/Safe.antt =====
-- No message is lost while matches are executed: of the message itself, and of the other files.
use mdsort.Base.{
  ℕ, Bool, true, false, some, List, ◌≡◌, refl, sym, ap, ◌∙◌, subst, Bytes, get_elem?, ◌⊎◌, inl, inr,
}
use mdsort.Environment.{Env}
use mdsort.Match.{MatchList}
use mdsort.Message.{Message}
use mdsort.Message.File.{message_write}
use mdsort.Message.Body.{Store}
use mdsort.Eval.State.{ExecStatus}
use mdsort.Maildir.{Maildir, Os, World}
use mdsort.Maildir.Calls.{same_file}
use mdsort.Maildir.Move.{Outcome, maildir_unlink, maildir_move, maildir_write}
use mdsort.Maildir.Files.{Has, Apart, unlink-Has}
use mdsort.Maildir.Others.{Untouched, maildir_move-Untouched, maildir_write-Untouched}
use mdsort.Maildir.Delivery.{Safe, maildir_move-Safe}
use mdsort.Maildir.Rewriting.{maildir_write-Safe}
use mdsort.Maildir.Looks.{Looks, maildir_move-Looks, maildir_write-Looks}
use mdsort.Exec.{Input, matches_exec}
use mdsort.Exec.Places.{Placed}
use mdsort.Exec.Watch.{Left, Watch, Concerns}
use mdsort.Exec.Steps.{matches_exec-After}

Has-same : (d n t : Bytes) (w w' : World) → w'.files ≡ w.files → Has d n t w → Has d n t w'
Has-same d n t w w' g h = ap (λ f. f d n) g ∙ h

-- Another file, with its content.
module _ (d n t : Bytes) where
  abbrev Other : Bytes → Message → World → Type 0
  Other p m w = Apart p m.name d n × Has d n t w

  Left-Untouched : (p : Bytes) (r : Outcome) → Untouched d n t p r → Left Other (Has d n t) p r
  Left-Untouched p (true, m, w) h = h
  Left-Untouched p (false, m, w) (h, a) = (a, h)

  unlink-Other :
      (p : Bytes) (m : Message) (w : World) (r : Bool × World)
      → Apart p m.name d n
      → Has d n t r.1
      → Left Other (Has d n t) p (r.0, m, r.1)
  unlink-Other p m w (true, w') a h = h
  unlink-Other p m w (false, w') a h = (a, h)

  abbrev other_file : (os : Os) (env : Env) → Watch os env
  unfolding maildir_unlink
  other_file os env = record {
    At = Other;
    After = Has d n t;
    Discards = Unit;
    stays = λ p m k w w' e f g h. (ap (λ x. same_file p x d n) e ∙ h.0, Has-same d n t w w' g h.1);
    rests = λ w w' g h. Has-same d n t w w' g h;
    settles = λ p m w h. h.1;
    moves = λ src dst m w h.
        Left-Untouched dst.path _ (maildir_move-Untouched os d n t src dst m env w h.0 h.1);
    writes =
        λ md m w h. Left-Untouched md.path _ (maildir_write-Untouched os d n t md m env w h.0 h.1);
    discards =
        λ u md m w h. unlink-Other md.path m w _ h.0 (unlink-Has os d n t md.path m.name w h.0 h.1);
  }

-- The message itself, which has a text, and which is written as `shown`.
module _ (text shown : Bytes) where
  abbrev pub KeptIn : Bytes → Bytes → World → Type 0
  KeptIn p n w = Has p n text w ⊎ Has p n shown w

  -- Some file has the text, or what `message_write` makes of the message.
  abbrev pub Somewhere : World → Type 0
  Somewhere w = (p : Bytes) × (n : Bytes) × KeptIn p n w

  abbrev Itself : Bytes → Message → World → Type 0
  Itself p m w = ((message_write m).0 ≡ shown) × KeptIn p m.name w

  Left-Safe :
      (os : Os) (d n t p : Bytes) (r : Outcome)
      → (t ≡ text) ⊎ (t ≡ shown)
      → Safe os d n t shown p r
      → Looks shown r
      → Left Itself Somewhere p r
  Left-Safe os d n t p (true, m, w) (inl u) (x, y, inl h) l =
      (x, y, inl (subst (λ v. Has x y v w) u h))
  Left-Safe os d n t p (true, m, w) (inr u) (x, y, inl h) l =
      (x, y, inr (subst (λ v. Has x y v w) u h))
  Left-Safe os d n t p (true, m, w) u (x, y, inr h) l = (x, y, inr h)
  Left-Safe os d n t p (false, m, w) (inl u) (inl h, g) l =
      (l, inl (subst (λ v. Has p m.name v w) u h))
  Left-Safe os d n t p (false, m, w) (inr u) (inl h, g) l =
      (l, inr (subst (λ v. Has p m.name v w) u h))
  Left-Safe os d n t p (false, m, w) u (inr h, g) l = (l, inr h)

  -- What the message is written as may be put in the place of `shown`.
  move-Left :
      (os : Os) (env : Env) (src dst : Maildir) (m : Message) (w : World)
      → Itself src.path m w
      → Left Itself Somewhere dst.path (maildir_move os src dst m env w)
  move-Left os env src dst m w (e, h) = go h
    where
      safe :
          (t : Bytes)
          → Has src.path m.name t w
          → Safe os src.path m.name t shown dst.path (maildir_move os src dst m env w)
      safe t k =
          subst (λ v. Safe os src.path m.name t v dst.path (maildir_move os src dst m env w)) e
            (maildir_move-Safe os src dst m t env w k)

      go :
          KeptIn src.path m.name w
          → Left Itself Somewhere dst.path (maildir_move os src dst m env w)
      go (inl k) =
          Left-Safe os src.path m.name text dst.path _ (inl refl) (safe text k)
            (maildir_move-Looks shown os src dst m env w e)
      go (inr k) =
          Left-Safe os src.path m.name shown dst.path _ (inr refl) (safe shown k)
            (maildir_move-Looks shown os src dst m env w e)

  write-Left :
      (os : Os) (env : Env) (md : Maildir) (m : Message) (w : World)
      → Itself md.path m w
      → Left Itself Somewhere md.path (maildir_write os md m env w)
  write-Left os env md m w (e, h) = go h
    where
      safe :
          (t : Bytes)
          → Has md.path m.name t w
          → Safe os md.path m.name t shown md.path (maildir_write os md m env w)
      safe t k =
          subst (λ v. Safe os md.path m.name t v md.path (maildir_write os md m env w)) e
            (maildir_write-Safe os md m t env w k)

      go : KeptIn md.path m.name w → Left Itself Somewhere md.path (maildir_write os md m env w)
      go (inl k) =
          Left-Safe os md.path m.name text md.path _ (inl refl) (safe text k)
            (maildir_write-Looks shown os md m env w e)
      go (inr k) =
          Left-Safe os md.path m.name shown md.path _ (inr refl) (safe shown k)
            (maildir_write-Looks shown os md m env w e)

  KeptIn-same : (p n : Bytes) (w w' : World) → w'.files ≡ w.files → KeptIn p n w → KeptIn p n w'
  KeptIn-same p n w w' g (inl h) = inl (Has-same p n text w w' g h)
  KeptIn-same p n w w' g (inr h) = inr (Has-same p n shown w w' g h)

  abbrev message_itself : (os : Os) (env : Env) → Watch os env
  message_itself os env = record {
    At = Itself;
    After = Somewhere;
    Discards = ⊥;
    stays = λ p m k w w' e f g h.
        (f ∙ h.0, subst (λ x. KeptIn p x w') (sym e) (KeptIn-same p m.name w w' g h.1));
    rests = λ w w' g h. (h.0, h.1, KeptIn-same h.0 h.1 w w' g h.2);
    settles = λ p m w h. (p, m.name, h.1);
    moves = λ src dst m w h. move-Left os env src dst m w h;
    writes = λ md m w h. write-Left os env md m w h;
    discards = λ never md m w h. absurd never;
  }

-- If the list has no discard, and its flag, move, label and add-header matches are about one message,
-- which is in its file in the source, then after matches_exec some file has the text of that
-- message, or what `message_write` makes of it, whichever calls of the system and whichever commands
-- fail.
pub matches_exec-Safe :
    (os : Os) (run : ℕ → List Bytes → Input → ExecStatus) (env : Env) (ml : MatchList)
    (src : Maildir) (store : Store) (i : ℕ) (m : Message) (text : Bytes) (w : World)
    → Concerns ⊥ i ml
    → Placed src
    → get_elem? store i ≡ some m
    → Has src.path m.name text w
    → Somewhere text ((message_write m).0) (matches_exec os run env ml src store w).1.world
matches_exec-Safe os run env ml src store i m text w c p e h =
    matches_exec-After os run env i (message_itself text ((message_write m).0) os env) ml src store
      m w c p e (refl, inl h)

-- If the flag, move, label, add-header and discard matches of the list are about one message in the
-- source, then every file other than that of the message has the same content after matches_exec,
-- whichever calls of the system and whichever commands fail.
pub matches_exec-Untouched :
    (os : Os) (run : ℕ → List Bytes → Input → ExecStatus) (env : Env) (ml : MatchList)
    (src : Maildir) (store : Store) (i : ℕ) (m : Message) (d n t : Bytes) (w : World)
    → Concerns Unit i ml
    → Placed src
    → get_elem? store i ≡ some m
    → Apart src.path m.name d n
    → Has d n t w
    → Has d n t (matches_exec os run env ml src store w).1.world
unfolding other_file
matches_exec-Untouched os run env ml src store i m d n t w c p e a h =
    matches_exec-After os run env i (other_file d n t os env) ml src store m w c p e (a, h)
